-- ===== src/Temperature/Unnumbered.antt =====
-- A label file with no number, such as "temp_label": the constructor of the temperature collector
-- throws, src/system_metrics.cpp line 145.
use time_agent.Base.{
  Bool, true, false, List, [], ◌∷◌, ◌≡◌, refl, sym, ap, ◌∙◌, Option, none, some, Bytes, inl, inr,
  ◌⊎◌, equal, equal_iff, drop, if◌then◌else◌, Bool-cases, All,
}
use mathlib.Core.List.{Memᴰ}
use mathlib.Core.List.Memᴰ
use time_agent.Number.{stoi}
use time_agent.Os.{Os}
use time_agent.Temperature.{
  TempZone, SensorFile, HwmonEntry, Scan, done, throws, member, put_sensor, find_sensors,
  note_sensor, scan_file, scan_files, scan_sensors, scan_then, construct, is_label_file, listing,
}
use time_agent.Temperature.Sensors.{IsSensor}

-- The directory of a configured sensor, the only one with its name, has such a file.
pub record IsUnnumbered (sensors : List Bytes) (entries : List HwmonEntry) (name : Bytes)
    (e : HwmonEntry) (files : List SensorFile) (f : SensorFile) : Type 0 where
  pub sensor : IsSensor sensors entries name e
  pub only : All (λ d. d.name ≡ some name → d ≡ e) entries
  pub lists : e.files ≡ some files
  pub listed : Memᴰ f files
  pub is_label : is_label_file f.filename ≡ true
  pub no_number : stoi (drop 4 f.filename) ≡ none

put_sensor-Memᴰ :
    (name : Bytes) (e : HwmonEntry) (m : List (Bytes × HwmonEntry))
    → Memᴰ (name, e) (put_sensor name e m)
unfolding put_sensor
put_sensor-Memᴰ name e [] = Memᴰ.head refl
put_sensor-Memᴰ name e ((n, f) ∷ m) = elim (Bool-cases (equal n name)) [
  | inl t ↦ rw t (Memᴰ.head refl)
  | inr t ↦ rw t (Memᴰ.tail (put_sensor-Memᴰ name e m))
]

-- Another entry under the same name would be the same.
put_sensor-kept :
    (name : Bytes) (e : HwmonEntry) (n : Bytes) (f : HwmonEntry) (m : List (Bytes × HwmonEntry))
    → (n ≡ name → f ≡ e)
    → Memᴰ (name, e) m
    → Memᴰ (name, e) (put_sensor n f m)
unfolding put_sensor
put_sensor-kept name e n f [] h k = elim k [ ]
put_sensor-kept name e n f ((k, g) ∷ m) h (Memᴰ.head p) = elim (Bool-cases (equal k n)) [
  | inl t ↦
      let same : n ≡ name = sym ((equal_iff k n).0 t) ∙ sym (ap (λ x. x.0) p) in
      rw t (Memᴰ.head (λ i. (sym same i, sym (h same) i)))
  | inr t ↦ rw t (Memᴰ.head p)
]
put_sensor-kept name e n f ((k, g) ∷ m) h (Memᴰ.tail l) = elim (Bool-cases (equal k n)) [
  | inl t ↦ rw t (Memᴰ.tail l)
  | inr t ↦ rw t (Memᴰ.tail (put_sensor-kept name e n f m h l))
]

module _ (sensors : List Bytes) (name : Bytes) (e : HwmonEntry) (directory : e.is_directory ≡ true)
    (named : e.name ≡ some name) (configured : member name sensors ≡ true) where
  abbrev Known : List (Bytes × HwmonEntry) → Type 0
  Known m = Memᴰ (name, e) m

  abbrev step :
      HwmonEntry → Bool → Option Bytes → List (Bytes × HwmonEntry) → List (Bytes × HwmonEntry)
  step d b o m = if b then note_sensor sensors d o m else m

  step-found :
      (d : HwmonEntry) (b : Bool) (o : Option Bytes) (m : List (Bytes × HwmonEntry))
      → b ≡ true
      → o ≡ some name
      → Memᴰ (name, d) (step d b o m)
  step-found d b o m t n = rw (t, n, configured) (put_sensor-Memᴰ name d m)

  note-kept :
      (d : HwmonEntry) (o : Option Bytes) (m : List (Bytes × HwmonEntry))
      → (o ≡ some name → d ≡ e)
      → Known m
      → Known (note_sensor sensors d o m)
  note-kept d none m h k = k
  note-kept d (some n) m h k = elim (Bool-cases (member n sensors)) [
    | inr f ↦ rw f k
    | inl t ↦ rw t (put_sensor-kept name e n d m (λ p. h (ap some p)) k)
  ]

  step-kept :
      (d : HwmonEntry) (b : Bool) (m : List (Bytes × HwmonEntry))
      → (d.name ≡ some name → d ≡ e)
      → Known m
      → Known (step d b d.name m)
  step-kept d false m h k = k
  step-kept d true m h k = note-kept d d.name m h k

  -- The first loop ends with the sensor, if it is among the entries or known already.
  find_sensors-Known :
      (es : List HwmonEntry) (m : List (Bytes × HwmonEntry))
      → All (λ d. d.name ≡ some name → d ≡ e) es
      → Memᴰ e es ⊎ Known m
      → Known (find_sensors sensors es m)
  unfolding find_sensors
  find_sensors-Known [] m a (inl l) = elim l [ ]
  find_sensors-Known [] m a (inr k) = k
  find_sensors-Known (d ∷ es) m (h, a) (inl (Memᴰ.head p)) =
      find_sensors-Known es (step d d.is_directory d.name m) a (
        inr (
          Memᴰ.cast (ap (λ x. (name, x)) p) (
            step-found d d.is_directory d.name m (sym (ap (λ x. x.is_directory) p) ∙ directory)
              (sym (ap (λ x. x.name) p) ∙ named))))
  find_sensors-Known (d ∷ es) m (h, a) (inl (Memᴰ.tail l)) =
      find_sensors-Known es (step d d.is_directory d.name m) a (inl l)
  find_sensors-Known (d ∷ es) m (h, a) (inr k) =
      find_sensors-Known es (step d d.is_directory d.name m) a
        (inr (step-kept d d.is_directory m h k))

module _ (os : Os) (exists : Bytes → Bool) where
  scan_then-throws :
      (r : Scan (List TempZone × os.World)) (rest : os.World → Scan (List TempZone × os.World))
      → ((w : os.World) → rest w ≡ throws)
      → scan_then os exists r rest ≡ throws
  scan_then-throws throws rest h = refl
  scan_then-throws (done (zs, w)) rest h = rw (h w) refl

  scan_file-throws :
      (w : os.World) (sensor dir : Bytes) (f : SensorFile)
      → is_label_file f.filename ≡ true
      → stoi (drop 4 f.filename) ≡ none
      → scan_file os exists w sensor dir f ≡ throws
  unfolding scan_file
  scan_file-throws w sensor dir f t n = rw (t, n) refl

  scan_files-throws :
      (w : os.World) (sensor dir : Bytes) (f : SensorFile) (fs : List SensorFile)
      → Memᴰ f fs
      → is_label_file f.filename ≡ true
      → stoi (drop 4 f.filename) ≡ none
      → scan_files os exists w sensor dir fs ≡ throws
  unfolding scan_files
  scan_files-throws w sensor dir f [] l t n = elim l [ ]
  scan_files-throws w sensor dir f (g ∷ fs) (Memᴰ.head p) t n =
      rw
        (scan_file-throws w sensor dir g (ap (λ x. is_label_file x.filename) (sym p) ∙ t)
          (ap (λ x. stoi (drop 4 x.filename)) (sym p) ∙ n))
        refl
  scan_files-throws w sensor dir f (g ∷ fs) (Memᴰ.tail l) t n =
      scan_then-throws (scan_file os exists w sensor dir g) _
        (λ w'. scan_files-throws w' sensor dir f fs l t n)

  scan_sensors-throws :
      (name : Bytes) (e : HwmonEntry) (m : List (Bytes × HwmonEntry))
      → ((w : os.World) → scan_files os exists w name e.path (listing os exists e.files) ≡ throws)
      → Memᴰ (name, e) m
      → (w : os.World) → scan_sensors os exists w m ≡ throws
  unfolding scan_sensors
  scan_sensors-throws name e [] h k w = elim k [ ]
  scan_sensors-throws name e ((n, d) ∷ m) h (Memᴰ.head p) w =
      ap
        (λ x.
          scan_then os exists (scan_files os exists w x.0 x.1.path (listing os exists x.1.files))
            (λ w'. scan_sensors os exists w' m))
        (sym p)
      ∙ rw (h w) refl
  scan_sensors-throws name e ((n, d) ∷ m) h (Memᴰ.tail l) w =
      scan_then-throws (scan_files os exists w n d.path (listing os exists d.files)) _
        (scan_sensors-throws name e m h l)

  pub construct-throws :
      (w : os.World) (sensors : List Bytes) (entries : List HwmonEntry) (name : Bytes)
      (e : HwmonEntry) (files : List SensorFile) (f : SensorFile)
      → IsUnnumbered sensors entries name e files f
      → construct os exists w sensors (some entries) ≡ throws
  unfolding construct
  construct-throws w sensors entries name e files f u =
      scan_sensors-throws name e (find_sensors sensors entries [])
        (λ w'.
          ap (λ fs. scan_files os exists w' name e.path (listing os exists fs)) u.lists
          ∙ scan_files-throws w' name e.path f files u.listed u.is_label u.no_number)
        (find_sensors-Known sensors name e u.sensor.directory u.sensor.named u.sensor.configured
          entries [] u.only (inl u.sensor.listed))
        w

-- ===== src/Temperature/Sources.antt =====
-- Which zones the constructor of the temperature collector registers.
use time_agent.Base.{
  ℕ, Bool, true, List, [], ◌∷◌, ◌++◌, ◌≡◌, refl, ap, Option, none, some, Bytes, codes, inl, inr,
  drop, Bool-cases, Option-cases, All, All-append,
}
use mathlib.Core.List.{Memᴰ}
use time_agent.Base.Int.{ℤ}
use time_agent.Number.{stoi, to_string}
use time_agent.Os.{Os}
use time_agent.Temperature.Sensors.{IsSensor, AreSensors, All-Memᴰ, find_sensors-AreSensors}
use time_agent.Temperature.{
  TempZone, SensorFile, HwmonEntry, Scan, done, throws, find_sensors, scan_file, scan_files,
  scan_sensors, construct, opened, labelled, is_label_file, listing, append_zones, scan_then,
}

All-map {ℓ} :
    {A : Type ℓ} (P Q : A → Type 0) (xs : List A) → ((x : A) → P x → Q x) → All P xs → All Q xs
All-map P Q [] f a = tt
All-map P Q (x ∷ xs) f (a, b) = (f x a, All-map P Q xs f b)

module _ (os : Os) (exists : Bytes → Bool) where
  -- The zone stands for a file of the sensor's directory that holds its label and has a number, and
  -- its descriptor is one of the file with the readings of this number.
  pub record IsZone (sensor dir : Bytes) (files : List SensorFile) (z : TempZone) : Type 0 where
    pub file : SensorFile
    pub number : ℤ
    pub before : os.World
    pub listed : Memᴰ file files
    pub is_label : is_label_file file.filename ≡ true
    pub numbered : stoi (drop 4 file.filename) ≡ some number
    pub labelled : file.first_line ≡ some z.label
    pub input : z.input_path ≡ dir ++ (codes "/temp" ++ (to_string number ++ codes "_input"))
    pub present : exists z.input_path ≡ true
    pub opened : (os.open_file before z.input_path).0 ≡ some z.fd
    pub of_sensor : z.sensor ≡ sensor

  abbrev pub AllZones : (TempZone → Type 0) → Scan (List TempZone × os.World) → Type 0
  AllZones P throws = Unit
  AllZones P (done r) = All P r.0

  AllZones-map :
      (P Q : TempZone → Type 0) (r : Scan (List TempZone × os.World))
      → ((z : TempZone) → P z → Q z)
      → AllZones P r
      → AllZones Q r
  AllZones-map P Q throws f a = tt
  AllZones-map P Q (done (zs, w)) f a = All-map P Q zs f a

  append_zones-AllZones :
      (P : TempZone → Type 0) (zs : List TempZone) (r : Scan (List TempZone × os.World))
      → All P zs
      → AllZones P r
      → AllZones P (append_zones os exists zs r)
  append_zones-AllZones P zs throws a b = tt
  append_zones-AllZones P zs (done (rest, w)) a b = All-append P zs rest a b

  scan_then-AllZones :
      (P : TempZone → Type 0) (r : Scan (List TempZone × os.World))
      (rest : os.World → Scan (List TempZone × os.World))
      → AllZones P r
      → ((w : os.World) → AllZones P (rest w))
      → AllZones P (scan_then os exists r rest)
  scan_then-AllZones P throws rest a h = tt
  scan_then-AllZones P (done (zs, w)) rest a h = append_zones-AllZones P zs (rest w) a (h w)

  module _ (sensor dir : Bytes) (files : List SensorFile) where
    abbrev Zones : List TempZone → Type 0
    Zones zs = All (IsZone sensor dir files) zs

    abbrev input_of : ℤ → Bytes
    input_of number = dir ++ (codes "/temp" ++ (to_string number ++ codes "_input"))

    opened-Zones :
        (w : os.World) (f : SensorFile) (number : ℤ) (label : Bytes) (r : Option ℕ × os.World)
        → Memᴰ f files
        → is_label_file f.filename ≡ true
        → stoi (drop 4 f.filename) ≡ some number
        → f.first_line ≡ some label
        → exists (input_of number) ≡ true
        → os.open_file w (input_of number) ≡ r
        → Zones (opened os exists sensor label (input_of number) r).0
    opened-Zones w f number label (none, w') m t e l x o = tt
    opened-Zones w f number label (some fd, w') m t e l x o = (
      record {
        file = f;
        number = number;
        before = w;
        listed = m;
        is_label = t;
        numbered = e;
        labelled = l;
        input = refl;
        present = x;
        opened = ap (λ r. r.0) o;
        of_sensor = refl;
      },
      tt,
    )

    labelled-Zones :
        (w : os.World) (f : SensorFile) (number : ℤ) (line : Option Bytes)
        → Memᴰ f files
        → is_label_file f.filename ≡ true
        → stoi (drop 4 f.filename) ≡ some number
        → f.first_line ≡ line
        → Zones (labelled os exists w sensor (input_of number) line).0
    labelled-Zones w f number none m t e l = tt
    labelled-Zones w f number (some label) m t e l = elim (Bool-cases (exists (input_of number))) [
      | inr n ↦ rw n tt
      | inl x ↦
          rw x (opened-Zones w f number label (os.open_file w (input_of number)) m t e l x refl)
    ]

    scan_file-AllZones :
        (w : os.World) (f : SensorFile)
        → Memᴰ f files
        → AllZones (IsZone sensor dir files) (scan_file os exists w sensor dir f)
    unfolding scan_file
    scan_file-AllZones w f m = elim (Bool-cases (is_label_file f.filename)) [
      | inr n ↦ rw n tt
      | inl t ↦ elim (Option-cases (stoi (drop 4 f.filename))) [
        | inl n ↦ rw (t, n) tt
        | inr (num, e) ↦ rw (t, e) (labelled-Zones w f num f.first_line m t e refl)
      ]
    ]

    scan_files-AllZones :
        (w : os.World) (fs : List SensorFile)
        → All (λ f. Memᴰ f files) fs
        → AllZones (IsZone sensor dir files) (scan_files os exists w sensor dir fs)
    unfolding scan_files
    scan_files-AllZones w [] k = tt
    scan_files-AllZones w (f ∷ fs) (m, k) =
        scan_then-AllZones (IsZone sensor dir files) (scan_file os exists w sensor dir f) _
          (scan_file-AllZones w f m) (λ w'. scan_files-AllZones w' fs k)

  module _ (sensors : List Bytes) (entries : List HwmonEntry) where
    -- A zone of a configured sensor among the entries of the hwmon directory.
    pub record IsSourced (z : TempZone) : Type 0 where
      pub name : Bytes
      pub entry : HwmonEntry
      pub sensor : IsSensor sensors entries name entry
      pub zone : IsZone name entry.path (listing os exists entry.files) z

    scan_sensors-AllZones :
        (w : os.World) (m : List (Bytes × HwmonEntry))
        → AreSensors sensors entries m
        → AllZones IsSourced (scan_sensors os exists w m)
    unfolding scan_sensors
    scan_sensors-AllZones w [] a = tt
    scan_sensors-AllZones w ((name, e) ∷ m) (s, a) =
        scan_then-AllZones IsSourced
          (scan_files os exists w name e.path (listing os exists e.files)) _
          (AllZones-map (IsZone name e.path (listing os exists e.files)) IsSourced _
            (λ z k. record { name = name; entry = e; sensor = s; zone = k })
            (scan_files-AllZones name e.path (listing os exists e.files) w
              (listing os exists e.files) (All-Memᴰ _)))
          (λ w'. scan_sensors-AllZones w' m a)

    pub construct-AllZones :
        (w : os.World) → AllZones IsSourced (construct os exists w sensors (some entries))
    unfolding construct
    construct-AllZones w =
        scan_sensors-AllZones w (find_sensors sensors entries [])
          (find_sensors-AreSensors sensors entries entries [] (All-Memᴰ entries) tt)

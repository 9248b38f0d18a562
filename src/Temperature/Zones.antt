-- ===== src/Temperature/Zones.antt =====
-- Which descriptors the temperature collector holds.
use time_agent.Base.{
  ℕ, Bool, false, not, ◌&&◌, ◌||◌, List, [], ◌∷◌, ◌++◌, ◌≡◌, refl, Option, none, some, Bytes, ◌==◌,
  inl, inr, arith, drop, Bool-cases, Option-cases,
}
use time_agent.Number.{stoi}
use time_agent.Os.{Os, IsPosix}
use time_agent.Os.Descriptors.{Owns, is_fd, open_file-Owns, Owns-same}
use time_agent.Temperature.{
  TempZone, SensorFile, HwmonEntry, Scan, done, throws, scan_file, scan_files, scan_sensors,
  construct, destroy, opened, labelled, is_label_file, listing, find_sensors, append_zones,
  scan_then,
}

-- Some zone holds the descriptor.
abbrev pub owned : List TempZone → ℕ → Bool
owned [] g = false
owned (z ∷ zs) g = g == z.fd || owned zs g

owned-append : (xs ys : List TempZone) (g : ℕ) → owned (xs ++ ys) g ≡ (owned xs g || owned ys g)
owned-append [] ys g = refl
owned-append (x ∷ xs) ys g = ground (arith, owned-append xs ys g)

module _ (os : Os) (posix : IsPosix os) (exists : Bytes → Bool) where
  open os use {World, is_open, open_file, close_file}

  -- The zones that a part of the constructor adds are its only new descriptors.
  abbrev AddsPair : (ℕ → Bool) → (ℕ → Bool) → List TempZone × World → Type 0
  AddsPair others prior r = Owns os posix others (λ g. owned r.0 g || prior g) r.1

  abbrev pub Adds : (ℕ → Bool) → (ℕ → Bool) → Scan (List TempZone × World) → Type 0
  Adds others prior throws = Unit
  Adds others prior (done r) = AddsPair others prior r

  module _ (others : ℕ → Bool) where
    abbrev Has : (ℕ → Bool) → World → Type 0
    Has prior w = Owns os posix others prior w

    opened-Adds :
        (prior : ℕ → Bool) (sensor label path : Bytes) (r : Option ℕ × World)
        → Has (λ g. is_fd g r.0 || prior g) r.1
        → AddsPair others prior (opened os exists sensor label path r)
    opened-Adds prior sensor label path (none, w) o = o
    opened-Adds prior sensor label path (some fd, w) o =
        Owns-same os posix others _ _ w (λ g. ground arith) o

    labelled-Adds :
        (prior : ℕ → Bool) (w : World) (sensor path : Bytes) (label : Option Bytes)
        → Has prior w
        → AddsPair others prior (labelled os exists w sensor path label)
    labelled-Adds prior w sensor path none o = o
    labelled-Adds prior w sensor path (some label) o = elim (Bool-cases (exists path)) [
      | inl t ↦ rw t (
          opened-Adds prior sensor label path (open_file w path)
            (open_file-Owns os posix others prior w path o))
      | inr f ↦ rw f o
    ]

    scan_file-Adds :
        (prior : ℕ → Bool) (w : World) (sensor dir : Bytes) (f : SensorFile)
        → Has prior w
        → Adds others prior (scan_file os exists w sensor dir f)
    unfolding scan_file
    scan_file-Adds prior w sensor dir f o = elim (Bool-cases (is_label_file f.filename)) [
      | inr n ↦ rw n o
      | inl t ↦ rw t (elim (Option-cases (stoi (drop 4 f.filename))) [
        | inl n ↦ rw n tt
        | inr (num, e) ↦ rw e (labelled-Adds prior w sensor _ f.first_line o)
      ])
    ]

    -- The zones of a first part and those of the rest.
    both-Adds :
        (prior : ℕ → Bool) (xs ys : List TempZone) (w : World)
        → Has (λ g. owned ys g || (owned xs g || prior g)) w
        → AddsPair others prior (xs ++ ys, w)
    both-Adds prior xs ys w o =
        Owns-same os posix others _ _ w (λ g. ground (arith, owned-append xs ys g)) o

    append_zones-Adds :
        (prior : ℕ → Bool) (zs : List TempZone) (r : Scan (List TempZone × World))
        → Adds others (λ g. owned zs g || prior g) r
        → Adds others prior (append_zones os exists zs r)
    append_zones-Adds prior zs throws a = tt
    append_zones-Adds prior zs (done (rest, w)) a = both-Adds prior zs rest w a

    scan_then-Adds :
        (prior : ℕ → Bool) (r : Scan (List TempZone × World))
        (rest : World → Scan (List TempZone × World))
        → Adds others prior r
        → ((now : ℕ → Bool) (w : World) → Has now w → Adds others now (rest w))
        → Adds others prior (scan_then os exists r rest)
    scan_then-Adds prior throws rest a h = tt
    scan_then-Adds prior (done (zs, w)) rest a h =
        append_zones-Adds prior zs (rest w) (h (λ g. owned zs g || prior g) w a)

    scan_files-Adds :
        (fs : List SensorFile) (prior : ℕ → Bool) (w : World) (sensor dir : Bytes)
        → Has prior w
        → Adds others prior (scan_files os exists w sensor dir fs)
    unfolding scan_files
    scan_files-Adds [] prior w sensor dir o = o
    scan_files-Adds (f ∷ fs) prior w sensor dir o =
        scan_then-Adds prior (scan_file os exists w sensor dir f) _
          (scan_file-Adds prior w sensor dir f o) (λ now w'. scan_files-Adds fs now w' sensor dir)

    scan_sensors-Adds :
        (m : List (Bytes × HwmonEntry)) (prior : ℕ → Bool) (w : World)
        → Has prior w
        → Adds others prior (scan_sensors os exists w m)
    unfolding scan_sensors
    scan_sensors-Adds [] prior w o = o
    scan_sensors-Adds ((sensor, e) ∷ m) prior w o =
        scan_then-Adds prior (scan_files os exists w sensor e.path (listing os exists e.files)) _
          (scan_files-Adds (listing os exists e.files) prior w sensor e.path o)
          (λ now w'. scan_sensors-Adds m now w')

    pub construct-Adds :
        (prior : ℕ → Bool) (w : World) (sensors : List Bytes) (entries : Option (List HwmonEntry))
        → Has prior w
        → Adds others prior (construct os exists w sensors entries)
    unfolding construct
    construct-Adds prior w sensors none o = o
    construct-Adds prior w sensors (some es) o =
        scan_sensors-Adds (find_sensors sensors es []) prior w o

module _ (os : Os) (posix : IsPosix os) where
  open os use {World, is_open}

  -- The destructor closes the descriptors of the zones and no others.
  pub destroy-is_open :
      (zs : List TempZone) (w : World) (g : ℕ)
      → is_open (destroy os w zs) g ≡ (not (owned zs g) && is_open w g)
  unfolding destroy
  destroy-is_open [] w g = refl
  destroy-is_open (z ∷ zs) w g =
      ground (arith, destroy-is_open zs (os.close_file w z.fd) g, posix.close_shuts w z.fd g)

-- ===== src/Temperature/Sensors.antt =====
-- Which sensors the first loop of the constructor of the temperature collector finds.
use time_agent.Base.{
  Bool, true, false, List, [], ◌∷◌, ◌≡◌, refl, Option, none, some, Bytes, inl, inr, equal,
  if◌then◌else◌, Bool-cases, All,
}
use mathlib.Core.List.{Memᴰ}
use time_agent.Temperature.{HwmonEntry, member, put_sensor, find_sensors, note_sensor}

-- The entry is a directory whose file "name" has this configured name.
pub record IsSensor (sensors : List Bytes) (entries : List HwmonEntry) (name : Bytes)
    (e : HwmonEntry) : Type 0 where
  pub listed : Memᴰ e entries
  pub directory : e.is_directory ≡ true
  pub named : e.name ≡ some name
  pub configured : member name sensors ≡ true

module _ {ℓ} {A : Type ℓ} where
  All-from : (xs ys : List A) → ((x : A) → Memᴰ x xs → Memᴰ x ys) → All (λ x. Memᴰ x ys) xs
  All-from [] ys f = tt
  All-from (x ∷ xs) ys f = (f x (Memᴰ.head refl), All-from xs ys (λ y m. f y (Memᴰ.tail m)))

  pub All-Memᴰ : (xs : List A) → All (λ x. Memᴰ x xs) xs
  All-Memᴰ xs = All-from xs xs (λ x m. m)

module _ (sensors : List Bytes) (entries : List HwmonEntry) where
  abbrev pub AreSensors : List (Bytes × HwmonEntry) → Type 0
  AreSensors m = All (λ s. IsSensor sensors entries s.0 s.1) m

  put_sensor-AreSensors :
      (name : Bytes) (e : HwmonEntry) (m : List (Bytes × HwmonEntry))
      → IsSensor sensors entries name e
      → AreSensors m
      → AreSensors (put_sensor name e m)
  unfolding put_sensor
  put_sensor-AreSensors name e [] h a = (h, tt)
  put_sensor-AreSensors name e ((n, f) ∷ m) h (g, a) = elim (Bool-cases (equal n name)) [
    | inl t ↦ rw t (h, a)
    | inr t ↦ rw t (g, put_sensor-AreSensors name e m h a)
  ]

  note_sensor-AreSensors :
      (e : HwmonEntry) (o : Option Bytes) (m : List (Bytes × HwmonEntry))
      → Memᴰ e entries
      → e.is_directory ≡ true
      → e.name ≡ o
      → AreSensors m
      → AreSensors (note_sensor sensors e o m)
  note_sensor-AreSensors e none m k t n a = a
  note_sensor-AreSensors e (some name) m k t n a = elim (Bool-cases (member name sensors)) [
    | inr g ↦ rw g a
    | inl c ↦ rw c (
        put_sensor-AreSensors name e m
          (record { listed = k; directory = t; named = n; configured = c }) a)
  ]

  directory-AreSensors :
      (e : HwmonEntry) (b : Bool) (m : List (Bytes × HwmonEntry))
      → Memᴰ e entries
      → e.is_directory ≡ b
      → AreSensors m
      → AreSensors (if b then note_sensor sensors e e.name m else m)
  directory-AreSensors e false m k t a = a
  directory-AreSensors e true m k t a = note_sensor-AreSensors e e.name m k t refl a

  -- The first loop finds configured sensors among the entries.
  pub find_sensors-AreSensors :
      (es : List HwmonEntry) (m : List (Bytes × HwmonEntry))
      → All (λ e. Memᴰ e entries) es
      → AreSensors m
      → AreSensors (find_sensors sensors es m)
  unfolding find_sensors
  find_sensors-AreSensors [] m k a = a
  find_sensors-AreSensors (e ∷ es) m (listed, k) a =
      find_sensors-AreSensors es (if e.is_directory then note_sensor sensors e e.name m else m) k
        (directory-AreSensors e e.is_directory m listed refl a)

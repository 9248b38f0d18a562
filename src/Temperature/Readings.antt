-- ===== src/Temperature/Readings.antt =====
-- Where the readings of the temperature collector come from: the constructor and `collect` together.
use time_agent.Base.{
  Bool, List, [], ◌∷◌, ◌≡◌, refl, sym, ap, ◌∙◌, some, Bytes, inl, inr, arith, Option-cases, All,
  >>=-eq-some,
}
use mathlib.Core.Path.{subst}
use time_agent.Number.{from_chars_int}
use time_agent.Metrics.{TemperatureMetric, TemperatureStats}
use time_agent.Os.{Os}
use time_agent.Temperature.{
  TempZone, HwmonEntry, done, construct, some_bytes, read_zone, readings, collect,
}
use time_agent.Temperature.Sources.{IsSourced, AllZones, construct-AllZones}

some_bytes-some : (os : Os) (s : Bytes) {b : Bytes} → some_bytes os s ≡ some b → s ≡ b
unfolding some_bytes
some_bytes-some os s h = ground arith

the_same : {r t : TemperatureMetric} → some r ≡ some t → r ≡ t
the_same e = cc

module _ (os : Os) (exists : Bytes → Bool) where
  module _ (sensors : List Bytes) (entries : List HwmonEntry) where
    -- A reading stands for a zone: its sensor and label, and the number at the start of what the
    -- descriptor of the zone delivers, as `std::from_chars` reads it.
    pub record IsReading (w : os.World) (r : TemperatureMetric) : Type 0 where
      pub zone : TempZone
      pub sourced : IsSourced os exists sensors entries zone
      pub buf : Bytes
      pub delivered : os.pread w zone.fd 15 ≡ some buf
      pub sensor_named : r.sensor ≡ zone.sensor
      pub label_named : r.label ≡ zone.label
      pub read : from_chars_int buf ≡ some r.temperature

    read_zone-IsReading :
        (w : os.World) (z : TempZone) {r : TemperatureMetric}
        → IsSourced os exists sensors entries z
        → read_zone os w z ≡ some r
        → IsReading w r
    unfolding read_zone
    read_zone-IsReading w z s e =
        let (delivered, d, e') = >>=-eq-some (os.pread w z.fd 15) _ e in
        let (buf, b, e'') = >>=-eq-some (some_bytes os delivered) _ e' in
        let (temp, t, f) = >>=-eq-some (from_chars_int buf) _ e'' in
        let same = the_same f in
        record {
          zone = z;
          sourced = s;
          buf = buf;
          delivered = d ∙ ap some (some_bytes-some os delivered b);
          sensor_named = sym (ap (λ r. r.sensor) same);
          label_named = sym (ap (λ r. r.label) same);
          read = t ∙ ap (λ r. some r.temperature) same;
        }

    readings-AreReadings :
        (w : os.World) (zs : List TempZone)
        → All (IsSourced os exists sensors entries) zs
        → All (IsReading w) (readings os w zs)
    unfolding readings
    readings-AreReadings w [] a = tt
    readings-AreReadings w (z ∷ zs) (s, a) = elim (Option-cases (read_zone os w z)) [
      | inl n ↦ rw n (readings-AreReadings w zs a)
      | inr (r, e) ↦ rw e (read_zone-IsReading w z s e, readings-AreReadings w zs a)
    ]

  -- Where the constructor has listed the hwmon directory and returned, `collect` always returns, and
  -- each of its readings stands for a zone: an entry of the directory whose name is configured has a
  -- file "temp<n>_label" with the reading's label, the zone's descriptor was opened from the file
  -- "temp<n>_input" beside it, and the temperature is the number at the start of the 15 bytes at most
  -- that the descriptor delivers.
  pub collect-AreSourced :
      (w later : os.World) (sensors : List Bytes) (entries : List HwmonEntry) {zs : List TempZone}
      {built : os.World}
      → construct os exists w sensors (some entries) ≡ done (zs, built)
      → (stats : TemperatureStats) × (collect os later zs ≡ some stats)
        × All (IsReading sensors entries later) stats.zones_readings
  unfolding collect
  collect-AreSourced w later sensors entries {zs} e = (
    _,
    refl,
    readings-AreReadings sensors entries later zs (
        subst (AllZones os exists (IsSourced os exists sensors entries)) e
          (construct-AllZones os exists sensors entries w)),
  )

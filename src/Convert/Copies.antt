-- ===== src/Convert/Copies.antt =====
-- The field-by-field copies of `to_system_metrics` change nothing.
use time_agent.Base.{List, [], ◌∷◌, ◌≡◌, refl, ap, Option, none, some, Bytes, map}
use time_agent.Metrics.{TemperatureMetric, TemperatureStats, SystemStats}
use time_agent.Convert.{
  copy_zone, copy_temperature, copy_cpu, copy_memory, copy_network, when_set, system,
  to_system_metrics,
}

map-copy_zone : (zs : List TemperatureMetric) → map copy_zone zs ≡ zs
unfolding copy_zone
map-copy_zone [] = refl
map-copy_zone (z ∷ zs) = ap (◌∷◌ z) (map-copy_zone zs)

copy_temperature_id : (t : TemperatureStats) → copy_temperature t ≡ t
unfolding copy_temperature
copy_temperature_id t = λ i. record { zones_readings = map-copy_zone t.zones_readings i }

when_set_id {ℓ} :
    {A : Type ℓ} (copy : A → A) → ((a : A) → copy a ≡ a) → (o : Option A) → when_set copy o ≡ o
when_set_id copy h none = refl
when_set_id copy h (some a) = ap some (h a)

-- Each group of the message is the group collected, and is there exactly when it was.
pub system_payload :
    {Double : Type 0} (s : SystemStats Double) (node : Bytes)
    → (to_system_metrics s node).payload
      ≡ system (record {
        cpu_stats = s.cpu_stats;
        memory_stats = s.memory_stats;
        network_stats = s.network_stats;
        temperature_stats = s.temperature_stats;
      })
unfolding to_system_metrics copy_cpu copy_memory copy_network
system_payload s node = λ i. system (record {
  cpu_stats = when_set_id copy_cpu (λ c. refl) s.cpu_stats i;
  memory_stats = when_set_id copy_memory (λ m. refl) s.memory_stats i;
  network_stats = when_set_id copy_network (λ n. refl) s.network_stats i;
  temperature_stats = when_set_id copy_temperature copy_temperature_id s.temperature_stats i;
})

-- ===== src/Topology/Ports.antt =====
-- The port that a snapshot is a child of, and when there is a snapshot.
use time_agent.Base.{
  false, List, [], ◌∷◌, ◌++◌, ◌≡◌, ◌≢◌, Bytes, codes, equal, equal_iff, inl, inr, arith, Bool-cases,
  All,
}
use time_agent.Base.Int.{ℤ}
use time_agent.Topology.{PtpPortSnapshot}
use time_agent.Topology.Parser.{child_port}

-- The number is that of the first port that is SLAVE, or there is none and it is the old one.
pub data IsChild (old : ℤ) : List PtpPortSnapshot → ℤ → Type 0 where
  found :
      (before after : List PtpPortSnapshot) (p : PtpPortSnapshot)
      → All (λ q. q.state ≢ codes "SLAVE") before
      → p.state ≡ codes "SLAVE"
      → IsChild old (before ++ p ∷ after) p.port_number
  missing : {ps : List PtpPortSnapshot} → All (λ q. q.state ≢ codes "SLAVE") ps → IsChild old ps old

not_before :
    {old n : ℤ} (p : PtpPortSnapshot) {ps : List PtpPortSnapshot}
    → p.state ≢ codes "SLAVE"
    → IsChild old ps n
    → IsChild old (p ∷ ps) n
not_before p h (found before after slave_port none_before slave) =
    found (p ∷ before) after slave_port (h, none_before) slave
not_before p h (missing none_at_all) = missing (h, none_at_all)

not_equal : (a b : Bytes) → equal a b ≡ false → a ≢ b
not_equal a b f = ground (arith, equal_iff a b)

-- The search of `parse` for the child port: it stops at the first port whose state is SLAVE, and
-- keeps the old number where there is no such port.
pub child_port-IsChild : (old : ℤ) (ps : List PtpPortSnapshot) → IsChild old ps (child_port old ps)
unfolding child_port
child_port-IsChild old [] = missing tt
child_port-IsChild old (p ∷ ps) = elim (Bool-cases (equal p.state (codes "SLAVE"))) [
  | inl t ↦ rw t (found [] ps p tt ((equal_iff p.state (codes "SLAVE")).0 t))
  | inr f ↦ rw f (not_before p (not_equal p.state (codes "SLAVE") f) (child_port-IsChild old ps))
]

-- ===== src/Topology/Grouping.antt =====
-- The loop over the port data set against a description by groups of lines.
use time_agent.Base.{
  List, [], ◌∷◌, ◌++◌, ◌≡◌, refl, sym, ap, ◌∙◌, Option, none, some, Bytes, codes, equal, inl, inr,
  Bool-cases, Option-cases, if◌then◌else◌, append_assoc, append-nil, arith,
}
use time_agent.Text.{first_token, lines}
use time_agent.Topology.{PtpPortSnapshot, parse_key_value}
use time_agent.Topology.Parser.{
  PortScan, push_port, push_current, new_port, with_state, port_line, scan_lines, scan_ports,
}
use time_agent.Topology.Fields.{token, value_at, last_value}

-- The identity in a line with the key "portIdentity", which opens a group.
abbrev pub identity_of : Option (Bytes × Bytes) → Option Bytes
identity_of none = none
identity_of (some (key, value)) =
    if equal key (codes "portIdentity") then some (first_token value) else none

abbrev until_identity : Option Bytes → Bytes → List Bytes → List Bytes
until_identity none l ls = l ∷ ls
until_identity (some identity) l ls = []

-- The lines in front of the next group.
unfoldable pub group : List Bytes → List Bytes
group [] = []
group (l ∷ ls) = let rest = group ls in until_identity (identity_of (parse_key_value l)) l rest

-- The port with the state that the last line of its group with the key "portState" gives.
abbrev pub with_group : PtpPortSnapshot → List Bytes → PtpPortSnapshot
with_group port ls = record port {
  state = last_value token (codes "portState") port.state (group ls);
}

abbrev opened : Option Bytes → List Bytes → List PtpPortSnapshot → List PtpPortSnapshot
opened none ls ports = ports
opened (some identity) ls ports = with_group (new_port identity) ls ∷ ports

-- One port for each group.
unfoldable pub ports_of : List Bytes → List PtpPortSnapshot
ports_of [] = []
ports_of (l ∷ ls) = let rest = ports_of ls in opened (identity_of (parse_key_value l)) ls rest

abbrev closed : Option PtpPortSnapshot → List Bytes → Option PtpPortSnapshot
closed none ls = none
closed (some port) ls = some (with_group port ls)

closed-empty :
    (current : Option PtpPortSnapshot) (ls : List Bytes)
    → group ls ≡ []
    → closed current ls ≡ current
unfolding last_value
closed-empty none ls h = refl
closed-empty (some port) ls h =
    ap (λ g. some (record port { state = last_value token (codes "portState") port.state g })) h

push_port-append :
    (ps : List PtpPortSnapshot) (port : PtpPortSnapshot) (rest : List PtpPortSnapshot)
    → push_port ps (some port) ++ rest ≡ ps ++ port ∷ rest
push_port-append ps port rest = append_assoc ps (port ∷ []) rest

-- What a scan in progress comes to over the lines that are left.
abbrev comes_to : PortScan → List Bytes → List PtpPortSnapshot
comes_to p ls = push_port p.ports (closed p.current ls) ++ ports_of ls

-- A line that opens no group belongs to the port of its group, if there is one.
abbrev advance : Option (Bytes × Bytes) → Option PtpPortSnapshot → Option PtpPortSnapshot
advance kv none = none
advance kv (some port) =
    some (record port { state = value_at token (codes "portState") port.state kv })

closed-inside :
    (current : Option PtpPortSnapshot) (l : Bytes) (ls : List Bytes)
    → group (l ∷ ls) ≡ l ∷ group ls
    → closed current (l ∷ ls) ≡ closed (advance (parse_key_value l) current) ls
unfolding last_value
closed-inside none l ls h = refl
closed-inside (some port) l ls h =
    ap (λ g. some (record port { state = last_value token (codes "portState") port.state g })) h

comes_to-inside :
    (p : PortScan) (l : Bytes) (ls : List Bytes)
    → identity_of (parse_key_value l) ≡ none
    → comes_to p (l ∷ ls)
      ≡ comes_to (record p { current = advance (parse_key_value l) p.current }) ls
comes_to-inside p l ls h =
    let inside : group (l ∷ ls) ≡ l ∷ group ls = unfold group in rw h refl in
    let same : ports_of (l ∷ ls) ≡ ports_of ls = unfold ports_of in rw h refl in
    rw (closed-inside p.current l ls inside, same) refl

comes_to-opened :
    (p : PortScan) (l : Bytes) (ls : List Bytes) (identity : Bytes)
    → identity_of (parse_key_value l) ≡ some identity
    → comes_to p (l ∷ ls)
      ≡ comes_to (record { ports = push_current p; current = some (new_port identity) }) ls
comes_to-opened p l ls identity h =
    let outside : group (l ∷ ls) ≡ [] = unfold group in rw h refl in
    let new : ports_of (l ∷ ls) ≡ with_group (new_port identity) ls ∷ ports_of ls =
      unfold ports_of in rw h refl in
    rw (closed-empty p.current (l ∷ ls) outside, new)
      (sym (push_port-append (push_current p) (with_group (new_port identity) ls) (ports_of ls)))

advance-nothing : (current : Option PtpPortSnapshot) → current ≡ advance none current
advance-nothing none = refl
advance-nothing (some port) = refl

advance-state :
    (current : Option PtpPortSnapshot) (key value : Bytes)
    → advance (some (key, value)) current
      ≡ (if equal key (codes "portState") then with_state (first_token value) current else current)
advance-state none key value = ground arith
advance-state (some port) key value = ground arith

-- What the body of the loop does with a line.
port_line-inside :
    (p : PortScan) (kv : Option (Bytes × Bytes))
    → identity_of kv ≡ none
    → port_line p kv ≡ record p { current = advance kv p.current }
unfolding port_line
port_line-inside p none h = ap (λ c. record p { current = c }) (advance-nothing p.current)
port_line-inside p (some (key, value)) h = elim (Bool-cases (equal key (codes "portIdentity"))) [
  | inl t ↦ absurd (ground arith)
  | inr f ↦ elim (Bool-cases (equal key (codes "portState"))) [
    | inl t ↦ rw (f, advance-state p.current key value, t) refl
    | inr g ↦ rw (f, advance-state p.current key value, g) refl
  ]
]

port_line-opened :
    (p : PortScan) (kv : Option (Bytes × Bytes)) (identity : Bytes)
    → identity_of kv ≡ some identity
    → port_line p kv ≡ record { ports = push_current p; current = some (new_port identity) }
unfolding port_line
port_line-opened p none identity h = absurd (cc)
port_line-opened p (some (key, value)) identity h = ground arith

port_line-comes_to :
    (p : PortScan) (l : Bytes) (ls : List Bytes)
    → comes_to (port_line p (parse_key_value l)) ls ≡ comes_to p (l ∷ ls)
port_line-comes_to p l ls = elim (Option-cases (identity_of (parse_key_value l))) [
  | inl e ↦ rw (port_line-inside p _ e) (sym (comes_to-inside p l ls e))
  | inr (identity, e) ↦
      rw (port_line-opened p _ identity e) (sym (comes_to-opened p l ls identity e))
]

scan_lines-comes_to :
    (p : PortScan) (ls : List Bytes) → push_current (scan_lines port_line p ls) ≡ comes_to p ls
unfolding scan_lines ports_of group
scan_lines-comes_to p [] = sym (
    append-nil (push_port p.ports (closed p.current []))
    ∙ ap (push_port p.ports) (closed-empty p.current [] refl))
scan_lines-comes_to p (l ∷ ls) =
    scan_lines-comes_to (port_line p (parse_key_value l)) ls ∙ port_line-comes_to p l ls

-- For every text of the port data set, the loop delivers one port for each line with the key
-- "portIdentity", in order, with the identity and the number in this line and the state in the last
-- line with the key "portState" before the next such line. Lines in front of the first are ignored.
pub scan_ports-ports_of : (text : Bytes) → scan_ports text ≡ ports_of (lines text)
unfolding scan_ports
scan_ports-ports_of text = scan_lines-comes_to (record { ports = []; current = none }) (lines text)

-- ===== src/Publisher/Capabilities/Laws.antt =====
-- What the agent announces, against what its dispatcher accepts and runs.
use mathlib.Core.List.{Memᴰ, append-nil, append_assoc}
use mathlib.Core.Option.{some-injective}
use mathlib.Core.Path.{subst}
use pfsense_agent.Base.{
  String, ◌≡◌, refl, sym, ◌∙◌, ◌≢◌, true, Option, none, some, List, [], ◌∷◌, ◌++◌, arith, str_eq,
  eq_iff, if◌then◌else◌, contains, All, Bool-cases, inl, inr,
}
use pfsense_agent.Protocol.{OperationSchema}
use pfsense_agent.Dispatcher.Operation.{Operation, switch}
use pfsense_agent.Publisher.Catalog.{catalog, lookup}
use pfsense_agent.Publisher.Capabilities.{
  source, add_schema, announce_from, exec_allowed, capabilities_payload,
}

-- The schemas of the operations that have one, in order: the loop without its accumulator.
known : Option OperationSchema → List OperationSchema → List OperationSchema
known none rest = rest
known (some s) rest = s ∷ rest

schemas_of : List String → List OperationSchema
schemas_of [] = []
schemas_of (op ∷ ops) = known (lookup op catalog) (schemas_of ops)

add_schema-append :
    (o : Option OperationSchema) (before rest : List OperationSchema)
    → add_schema o before ++ rest ≡ before ++ known o rest
unfolding add_schema known
add_schema-append none before rest = refl
add_schema-append (some s) before rest = append_assoc before (s ∷ []) rest

announce_from-eq :
    (ops : List String) (before : List OperationSchema)
    → announce_from ops before ≡ before ++ schemas_of ops
unfolding announce_from schemas_of
announce_from-eq [] before = sym (append-nil before)
announce_from-eq (op ∷ ops) before =
    announce_from-eq ops (add_schema (lookup op catalog) before)
    ∙ add_schema-append (lookup op catalog) before (schemas_of ops)

lookup_name :
    (op : String) (ss : List OperationSchema) (s : OperationSchema)
    → lookup op ss ≡ some s
    → s.operation ≡ op
unfolding lookup
lookup_name op [] s h = cc
lookup_name op (t ∷ ss) s h = ground (arith, eq_iff op t.operation, lookup_name op ss s)

lookup-All :
    (P : OperationSchema → Type 0) (op : String) (ss : List OperationSchema) (s : OperationSchema)
    → All P ss
    → lookup op ss ≡ some s
    → P s
unfolding lookup
lookup-All P op [] s ps h = cc
lookup-All P op (t ∷ ss) s (p, ps) h = elim (Bool-cases (str_eq op t.operation)) [
  | inl hit ↦ subst P (some-injective t s (rw hit at h)) p
  | inr miss ↦ lookup-All P op ss s ps (rw miss at h)
]

abbrev pub IsRun : OperationSchema → Type 0
IsRun s = (o : Operation) × (switch s.operation ≡ some o)

catalog-IsRun : All IsRun catalog
unfolding switch
catalog-IsRun = (
  (_, refl),
  (
    (_, refl),
    (
      (_, refl),
      (
        (_, refl),
        (
          (_, refl),
          (
            (_, refl),
            (
              (_, refl),
              (
                (_, refl),
                (
                  (_, refl),
                  (
                    (_, refl),
                    (
                      (_, refl),
                      (
                        (_, refl),
                        (
                          (_, refl),
                          (
                            (_, refl),
                            (
                              (_, refl),
                              (
                                (_, refl),
                                (
                                  (_, refl),
                                  (
                                    (_, refl),
                                    (
                                      (_, refl),
                                      ((_, refl), ((_, refl), ((_, refl), ((_, refl), tt)))),
                                    ),
                                  ),
                                ),
                              ),
                            ),
                          ),
                        ),
                      ),
                    ),
                  ),
                ),
              ),
            ),
          ),
        ),
      ),
    ),
  ),
)

-- The operations listed in the configuration, and the schemas of those that have one.
abbrev pub Announced : List String → OperationSchema → Type 0
Announced ops s = (contains ops s.operation ≡ true) × IsRun s

contains-cons :
    (op : String) (ops : List String) (a : String)
    → contains ops a ≡ true
    → contains (op ∷ ops) a ≡ true
unfolding contains
contains-cons op ops a h = ground arith

All-weaken :
    (op : String) (ops : List String) (ss : List OperationSchema)
    → All (Announced ops) ss
    → All (Announced (op ∷ ops)) ss
All-weaken op ops [] h = tt
All-weaken op ops (s ∷ ss) ((listed, run), h) =
    ((contains-cons op ops s.operation listed, run), All-weaken op ops ss h)

known-Announced :
    (op : String) (ops : List String) (o : Option OperationSchema) (rest : List OperationSchema)
    → lookup op catalog ≡ o
    → All (Announced (op ∷ ops)) rest
    → All (Announced (op ∷ ops)) (known o rest)
unfolding known contains
known-Announced op ops none rest found h = h
known-Announced op ops (some s) rest found h = (
  (
    ground (arith, eq_iff s.operation op, lookup_name op catalog s found),
    lookup-All IsRun op catalog s catalog-IsRun found,
  ),
  h,
)

schemas_of-Announced : (ops : List String) → All (Announced ops) (schemas_of ops)
unfolding schemas_of
schemas_of-Announced [] = tt
schemas_of-Announced (op ∷ ops) =
    known-Announced op ops _ _ refl (All-weaken op ops (schemas_of ops) (schemas_of-Announced ops))

-- With some operations allowed, each announced schema is of an allowed operation, and the dispatcher's
-- switch has a case for it.
pub capabilities-Announced :
    (order allowed_ops allowed_commands : List String)
    → allowed_ops ≢ []
    → All
        (Announced allowed_ops)
        (capabilities_payload order allowed_ops allowed_commands).operations
unfolding capabilities_payload
capabilities-Announced order [] allowed_commands h = absurd (h refl)
capabilities-Announced order (op ∷ ops) allowed_commands h =
    rw (announce_from-eq (op ∷ ops) []) (schemas_of-Announced (op ∷ ops))

mem-known_rest :
    (s : OperationSchema) (o : Option OperationSchema) (rest : List OperationSchema)
    → Memᴰ s rest
    → Memᴰ s (known o rest)
unfolding known
mem-known_rest s none rest m = m
mem-known_rest s (some t) rest m = Memᴰ.tail m

mem-known_head :
    (s : OperationSchema) (o : Option OperationSchema) (rest : List OperationSchema)
    → o ≡ some s
    → Memᴰ s (known o rest)
unfolding known
mem-known_head s none rest e = cc
mem-known_head s (some t) rest e = Memᴰ.head (sym (some-injective t s e))

mem-schemas_of :
    (op : String) (s : OperationSchema) (ops : List String)
    → lookup op catalog ≡ some s
    → contains ops op ≡ true
    → Memᴰ s (schemas_of ops)
unfolding schemas_of contains
mem-schemas_of op s [] found h = cc
mem-schemas_of op s (c ∷ ops) found h = elim (Bool-cases (str_eq op c)) [
  | inl same ↦
      mem-known_head s (lookup c catalog) (schemas_of ops) (rw (← (eq_iff op c).0 same) found)
  | inr other ↦
      mem-known_rest s (lookup c catalog) (schemas_of ops)
        (mem-schemas_of op s ops found (ground arith))
]

-- An operation that is allowed, or any key of the catalogue if none is, and that has a schema is
-- announced with it.
pub capabilities-mem :
    (order allowed_ops allowed_commands : List String) (op : String) (s : OperationSchema)
    → lookup op catalog ≡ some s
    → contains (source order allowed_ops) op ≡ true
    → Memᴰ s (capabilities_payload order allowed_ops allowed_commands).operations
unfolding capabilities_payload
capabilities-mem order allowed_ops allowed_commands op s found listed =
    rw (announce_from-eq (source order allowed_ops) [])
      (mem-schemas_of op s (source order allowed_ops) found listed)

exec_allowed-eq : (ops : List String) → exec_allowed ops ≡ contains ops "exec"
unfolding exec_allowed contains
exec_allowed-eq [] = refl
exec_allowed-eq (op ∷ ops) = ground (arith, exec_allowed-eq ops, eq_iff op "exec", eq_iff "exec" op)

-- The allowed commands are announced if `exec` is an allowed operation, or, with no operation allowed, one
-- of the given keys of the catalogue; otherwise no command is announced.
pub exec_commands_lem :
    (order allowed_ops allowed_commands : List String)
    → (capabilities_payload order allowed_ops allowed_commands).exec_commands
      ≡ (if contains (source order allowed_ops) "exec" then allowed_commands else [])
unfolding capabilities_payload
exec_commands_lem order allowed_ops allowed_commands = rw exec_allowed-eq

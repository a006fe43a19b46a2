-- ===== src/DiskResize/Device/Laws.antt =====
-- What `parseDevice` gives back of a device name.
use text.Mathlib.TextLemmas.{append_assoc, cons-append, nil-append}
use text.Mathlib.TextEquality.{Char-path}
use mathlib.Core.Option.{some-injective}
use pfsense_agent.Base.{
  String, ◌<>◌, ◌≡◌, refl, sym, ◌∙◌, ap, ◌⊎◌, inl, inr, Bool, true, Option, none, some, Char,
  is_lower, is_digit, after_prefix, arith, code, ◌==◌, ==_iff, Bool-cases,
}
use pfsense_agent.DiskResize.Device.{
  Partition, span, is_number, numbered, traditional, behind_namespace, behind_controller,
  behind_nvme, or_traditional, parse_device,
}

span-append : (p : Char → Bool) (s : String) → (span p s).0 <> (span p s).1 ≡ s
unfolding span
span-append p String.[] = refl
span-append p (String.◌∷◌ c s) = elim (Bool-cases (p c)) [
  | inl pass ↦
      rw pass (cons-append c (span p s).0 (span p s).1 ∙ ap (λ t. String.◌∷◌ c t) (span-append p s))
  | inr stop ↦ rw stop (nil-append (String.◌∷◌ c s))
]

after_prefix-append : (s t r : String) → after_prefix s t ≡ some r → s ≡ t <> r
unfolding after_prefix
after_prefix-append s String.[] r h = some-injective s r h ∙ sym (nil-append r)
after_prefix-append String.[] (String.◌∷◌ d t) r h = cc
after_prefix-append (String.◌∷◌ c s) (String.◌∷◌ d t) r h = elim (Bool-cases (code c == code d)) [
  | inl same ↦
      rw (Char-path c d ((==_iff (code c) (code d)).0 same), cons-append d t r)
        (ap (λ u. String.◌∷◌ d u) (after_prefix-append s t r (rw same at h)))
  | inr other ↦ ground arith
]

numbered_lem :
    (base number : String) (found : Partition)
    → numbered base number ≡ some found
    → (found.base ≡ base) × (found.number ≡ number) × (is_number number ≡ true)
unfolding numbered
numbered_lem base number found h = ground arith

-- How a name is made of its parts: with a `p` between them on an NVMe disk.
abbrev pub IsMadeOf : String → Partition → Type 0
IsMadeOf name found =
    (name ≡ found.base <> found.number) ⊎ (name ≡ found.base <> ("p" <> found.number))

traditional_lem :
    (name : String) (found : Partition)
    → traditional name ≡ some found
    → (is_number found.number ≡ true) × IsMadeOf name found
unfolding traditional
traditional_lem name found h =
    let parts = numbered_lem (span is_lower name).0 (span is_lower name).1 found h in
    (rw parts.1 parts.2, inl (rw (parts.0, parts.1) (sym (span-append is_lower name))))

-- The name of a partition of an NVMe disk.
abbrev IsNvme : String → Partition → Type 0
IsNvme name found = (is_number found.number ≡ true) × (name ≡ found.base <> ("p" <> found.number))

regroup : (a b c d e : String) → a <> (b <> (c <> (d <> e))) ≡ (a <> (b <> (c <> d))) <> e
regroup a b c d e =
    rw (append_assoc a (b <> (c <> d)) e, append_assoc b (c <> d) e, append_assoc c d e) refl

behind_namespace_lem :
    (controller namespace rest : String) (o : Option String) (found : Partition)
    → after_prefix rest "p" ≡ o
    → behind_namespace controller namespace rest o ≡ some found
    → IsNvme ("nvme" <> (controller <> ("n" <> (namespace <> rest)))) found
unfolding behind_namespace
behind_namespace_lem controller namespace rest none found e h = cc
behind_namespace_lem controller namespace rest (some number) found e h =
    let parts =
      numbered_lem ("nvme" <> (controller <> ("n" <> namespace))) number found (ground arith) in
    (
      rw parts.1 parts.2,
      rw (parts.0, parts.1, after_prefix-append rest "p" number e)
          (regroup "nvme" controller "n" namespace ("p" <> number)),
    )

behind_controller_lem :
    (controller rest : String) (o : Option String) (found : Partition)
    → after_prefix rest "n" ≡ o
    → behind_controller controller o ≡ some found
    → IsNvme ("nvme" <> (controller <> rest)) found
unfolding behind_controller
behind_controller_lem controller rest none found e h = cc
behind_controller_lem controller rest (some s) found e h =
    let parts =
      behind_namespace_lem controller (span is_digit s).0 (span is_digit s).1 _ found refl h in
    (parts.0, rw (after_prefix-append rest "n" s e, ← span-append is_digit s) parts.1)

behind_nvme_lem :
    (name : String) (o : Option String) (found : Partition)
    → after_prefix name "nvme" ≡ o
    → behind_nvme o ≡ some found
    → IsNvme name found
unfolding behind_nvme
behind_nvme_lem name none found e h = cc
behind_nvme_lem name (some s) found e h =
    let parts = behind_controller_lem (span is_digit s).0 (span is_digit s).1 _ found refl h in
    (parts.0, rw (after_prefix-append name "nvme" s e, ← span-append is_digit s) parts.1)

or_traditional_lem :
    (name : String) (o : Option Partition) (found : Partition)
    → behind_nvme (after_prefix name "nvme") ≡ o
    → or_traditional name o ≡ some found
    → (is_number found.number ≡ true) × IsMadeOf name found
unfolding or_traditional
or_traditional_lem name none found e h = traditional_lem name found h
or_traditional_lem name (some nvme) found e h =
    let parts = behind_nvme_lem name _ found refl (e ∙ h) in (parts.0, inr parts.1)

-- The parts rebuild the name: the base and the number, with a `p` between them on an NVMe disk; and the
-- number is one or more digits.
pub parse_device_lem :
    (name : String) (found : Partition)
    → parse_device name ≡ some found
    → (is_number found.number ≡ true) × IsMadeOf name found
unfolding parse_device
parse_device_lem name found h = or_traditional_lem name _ found refl h

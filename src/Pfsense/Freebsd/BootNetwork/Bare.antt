-- ===== src/Pfsense/Freebsd/BootNetwork/Bare.antt =====
-- The bare addresses of `ApplyBootNetworkConfig` in internal/modules/pfsense/pfsense_freebsd.go.
use Prim.Native.Char.{Char, code}
use text.Mathlib.TextLemmas.{nil-append, cons-append}
use pfsense_agent.Base.{
  String, ◌<>◌, ◌≡◌, refl, sym, ap, ◌∙◌, ◌≢◌, ◌⊎◌, inl, inr, Option, none, some, List, [], ◌∷◌, map,
  arith, Bool-cases, ◌==◌, ==_iff,
}
use pfsense_agent.Pfsense.Freebsd.BootNetwork.{strip_cidr_suffix, bare_gateway}

abbrev pub NoSlash : String → Type 0
NoSlash String.[] = Unit
NoSlash (String.◌∷◌ c s) = (code c ≢ b'/') × NoSlash s

strip_cidr_suffix-NoSlash : (s : String) → NoSlash (strip_cidr_suffix s)
unfolding strip_cidr_suffix
strip_cidr_suffix-NoSlash String.[] = tt
strip_cidr_suffix-NoSlash (String.◌∷◌ c s) = elim (Bool-cases (code c == b'/')) [
  | inl slash ↦ rw slash tt
  | inr other ↦ rw other (ground arith, strip_cidr_suffix-NoSlash s)
]

-- The text before the first slash, or all of it.
abbrev pub IsCut : String → String → Type 0
IsCut given bare =
    (bare ≡ given)
    ⊎ ((slash : Char) × (rest : String) × (code slash ≡ b'/')
        × (given ≡ bare <> String.◌∷◌ slash rest))

abbrev pub IsBareOf : String → String → Type 0
IsBareOf given bare = NoSlash bare × IsCut given bare

-- The gateway of an entry: none is an empty text.
abbrev pub IsBareRouter : Option String → String → Type 0
IsBareRouter none bare = bare ≡ ""
IsBareRouter (some given) bare = IsBareOf given bare

abbrev pub AreBareOf : List String → List String → Type 0
AreBareOf [] [] = Unit
AreBareOf (given ∷ more) (bare ∷ rest) = IsBareOf given bare × AreBareOf more rest
AreBareOf _ _ = ⊥

longer :
    (c : Char) (given bare : String)
    → IsCut given bare
    → IsCut (String.◌∷◌ c given) (String.◌∷◌ c bare)
longer c given bare (inl same) = inl (ap (λ s. String.◌∷◌ c s) same)
longer c given bare (inr (slash, rest, is_slash, made)) = inr (
  slash,
  rest,
  is_slash,
  ap (λ s. String.◌∷◌ c s) made ∙ sym (cons-append c bare (String.◌∷◌ slash rest)),
)

strip_cidr_suffix-IsCut : (s : String) → IsCut s (strip_cidr_suffix s)
unfolding strip_cidr_suffix
strip_cidr_suffix-IsCut String.[] = inl refl
strip_cidr_suffix-IsCut (String.◌∷◌ c s) = elim (Bool-cases (code c == b'/')) [
  | inl slash ↦
      rw slash (inr (c, s, (==_iff (code c) b'/').0 slash, sym (nil-append (String.◌∷◌ c s))))
  | inr other ↦ rw other (longer c s (strip_cidr_suffix s) (strip_cidr_suffix-IsCut s))
]

pub strip_cidr_suffix-IsBareOf : (s : String) → IsBareOf s (strip_cidr_suffix s)
strip_cidr_suffix-IsBareOf s = (strip_cidr_suffix-NoSlash s, strip_cidr_suffix-IsCut s)

pub bare_gateway-IsBareRouter : (o : Option String) → IsBareRouter o (bare_gateway o)
unfolding bare_gateway
bare_gateway-IsBareRouter none = refl
bare_gateway-IsBareRouter (some g) = strip_cidr_suffix-IsBareOf g

pub map-AreBareOf : (ss : List String) → AreBareOf ss (map strip_cidr_suffix ss)
map-AreBareOf [] = tt
map-AreBareOf (s ∷ ss) = (strip_cidr_suffix-IsBareOf s, map-AreBareOf ss)

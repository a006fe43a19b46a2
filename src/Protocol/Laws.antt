-- ===== src/Protocol/Laws.antt =====
-- The envelopes that `New` and `ResultFor` of internal/protocol/envelope.go build, and the identifiers.
use mathlib.Core.Option.{some-ne-none}
use Prim.Native.Nat.{bit_and, bit_or}
use pfsense_agent.Base.{
  Bool-cases, inl, inr, if◌then◌else◌, ℕ, zero, suc, ◌/◌, ◌%◌, ◌<◌, ◌≡◌, refl, ◌⊎◌, Bool, true,
  false, ◌&&◌, String, Option, none, some, arith, ◌==◌,
}
use pfsense_agent.Base.Int.{pos}
use pfsense_agent.Protocol.Uuid.{versioned}
use pfsense_agent.Protocol.{
  Received, Sent, Stamp, Status, Output, of_result, result, zero_envelope, output_marshals,
  result_for, MessageType, Payload, marshals, new,
}

-- A test that every number under a bound passes, counted down.
passes_under : (ℕ → Bool) → ℕ → Bool
passes_under test zero = true
passes_under test (suc bound) =
    let rest = passes_under test bound in if test bound then rest else false

passes_under_lem :
    (test : ℕ → Bool) (i bound : ℕ) → i < bound → passes_under test bound ≡ true → test i ≡ true
unfolding passes_under
passes_under_lem test i zero below passed = elim below [ ]
passes_under_lem test i (suc bound) below passed = elim (Bool-cases (test bound)) [
  | inl fits ↦ ground (arith, passes_under_lem test i bound)
  | inr fails ↦ ground arith
]

abbrev version_byte : ℕ → ℕ
version_byte x = bit_or (bit_and x 0x0F) 0x40

abbrev variant_byte : ℕ → ℕ
variant_byte x = bit_or (bit_and x 0x3F) 0x80

version_table :
    passes_under (λ x. (version_byte x / 16 == 4) && (version_byte x % 16 == x % 16)) 256 ≡ true
unfolding passes_under
version_table = refl

variant_table :
    passes_under (λ x. (variant_byte x / 64 == 2) && (variant_byte x % 64 == x % 64)) 256 ≡ true
unfolding passes_under
variant_table = refl

version_lem : (x : ℕ) → x < 256 → (version_byte x / 16 ≡ 4) × (version_byte x % 16 ≡ x % 16)
version_lem x h = ground (arith, passes_under_lem _ x 256 h version_table)

variant_lem : (x : ℕ) → x < 256 → (variant_byte x / 64 ≡ 2) × (variant_byte x % 64 ≡ x % 64)
variant_lem x h = ground (arith, passes_under_lem _ x 256 h variant_table)

other_byte : (random : ℕ → ℕ) (i : ℕ) → (i ≡ 6) ⊎ (i ≡ 8) ⊎ (versioned random i ≡ random i)
unfolding versioned
other_byte random i = ground arith

-- Whatever bytes the random source gives, byte 6 gets the version 4 in its high half, byte 8 the
-- variant 10 in its two high bits, the low bits of both stay random, and every other byte is left
-- as it was given.
pub versioned_bits :
    (random : ℕ → ℕ)
    → ((i : ℕ) → random i < 256)
    → (versioned random 6 / 16 ≡ 4)
      × (versioned random 6 % 16 ≡ random 6 % 16)
      × (versioned random 8 / 64 ≡ 2)
      × (versioned random 8 % 64 ≡ random 8 % 64)
      × ((i : ℕ) → (i ≡ 6) ⊎ (i ≡ 8) ⊎ (versioned random i ≡ random i))
unfolding versioned
versioned_bits random h = (
  (version_lem (random 6) (h 6)).0,
  (version_lem (random 6) (h 6)).1,
  (variant_lem (random 8) (h 8)).0,
  (variant_lem (random 8) (h 8)).1,
  other_byte random,
)

-- A result that answers the command `src`: version 1, a result of this agent, with the command's id,
-- the status and the output, and addressed to nobody in particular.
pub record Answers (src : Received) (agent_uuid : String) (status : Status) (message : String)
    (output : Option Output) (reply : Sent) : Type 0 where
  pub version : reply.v ≡ pos 1
  pub kind : reply.type ≡ result
  pub author : reply.agent_uuid ≡ agent_uuid
  pub role : reply.agent_type ≡ "vm"
  pub unaddressed : reply.reply_to ≡ ""
  pub body :
      reply.payload
      ≡ some (
          of_result
            (record { command_id = src.id; status = status; message = message; output = output }))

abbrev pub marshals_output : Option Output → Bool
marshals_output none = true
marshals_output (some o) = output_marshals o

pub result_for-Answers :
    (stamp : Stamp) (src : Received) (agent_uuid : String) (status : Status) (message : String)
    (output : Option Output)
    → marshals_output output ≡ true
    → Answers src agent_uuid status message output
        (result_for stamp src agent_uuid status message output).0
unfolding result_for
result_for-Answers stamp src agent_uuid status message none h = record {
  version = refl;
  kind = refl;
  author = refl;
  role = refl;
  unaddressed = refl;
  body = refl;
}
result_for-Answers stamp src agent_uuid status message (some o) h = ground arith

-- An output with a float that is no number cannot be marshalled: the envelope that is returned beside
-- the error is empty, and carries neither the command's id nor its status.
pub result_for_unmarshalled :
    (stamp : Stamp) (src : Received) (agent_uuid : String) (status : Status) (message : String)
    (o : Output)
    → output_marshals o ≡ false
    → (result_for stamp src agent_uuid status message (some o)).0 ≡ zero_envelope
unfolding result_for
result_for_unmarshalled stamp src agent_uuid status message o h = ground arith

-- Whether an envelope is of the type of a result.
abbrev pub is_result_type : MessageType → Bool
is_result_type kind = elim kind [ result ↦ true | _ ↦ false ]

abbrev pub is_result : Sent → Bool
is_result env = is_result_type env.type

-- An envelope that could be built is of the type that it was built for.
pub is_result-new :
    (stamp : Stamp) (agent_uuid : String) (kind : MessageType) (payload : Payload)
    → (new stamp agent_uuid kind payload).1 ≡ none
    → is_result (new stamp agent_uuid kind payload).0 ≡ is_result_type kind
unfolding new
is_result-new stamp agent_uuid kind payload built = elim (Bool-cases (marshals payload)) [
  | inl fine ↦ rw fine refl
  | inr bad ↦ absurd (some-ne-none _ (rw bad at built))
]

-- ===== src/Control/Client/Laws.antt =====
-- What the control tool's `doRequest` (cmd/ctl/main.go) sends, and which answers it accepts.
use mathlib.Core.Path.{subst}
use pfsense_agent.Base.{
  ℕ, String, true, Option, none, some, List, ◌≡◌, refl, sym, ap, ◌⊎◌, inl, inr, arith, ◌↔◌, Result,
  ok, err, Error,
}
use pfsense_agent.Json.{Json, unmarshal}
use pfsense_agent.Control.Client.{
  Settings, ApiResponse, no_response, set_response, Request, Response, Http, RequestOption,
  request_to, judge, judged, decode_response, read_body, answered, send_built, do_request,
}

-- A response is accepted unless it both denies its success and has an error object.
pub IsPassed : ApiResponse → Type 0
IsPassed r = (r.success ≡ true) ⊎ (r.error ≡ none)

judge_iff : (a r : ApiResponse) → (judge a ≡ ok r) ↔ ((a ≡ r) × IsPassed r)
unfolding judge IsPassed
judge_iff a r = (λ h. ground arith, λ h. grind arith)

judged_iff :
    (status : ℕ) (body : String) (d : Result ApiResponse) (r : ApiResponse)
    → (judged status body d ≡ ok r) ↔ ((d ≡ ok r) × IsPassed r)
unfolding judged
judged_iff status body (err e) r = (λ h. ground arith, λ h. ground arith)
judged_iff status body (ok a) r = (
  λ h. (ap ok ((judge_iff a r).0 h).0, ((judge_iff a r).0 h).1),
  λ h. (judge_iff a r).1 (grind arith, h.1),
)

not_ok : {A : Type 0} (e : Error) (a : A) → Path (Result A) (err e) (ok a) → ⊥
not_ok e a h = ground arith

refused :
    (status : ℕ) (body : String) (e : Error) (r : ApiResponse)
    → judged status body (err e) ≡ ok r
    → ⊥
unfolding judged
refused status body e r h = not_ok _ _ h

ok_injective : {A : Type 0} (a b : A) → Path (Result A) (ok a) (ok b) → a ≡ b
ok_injective a b e = cc

carried : {A : Type 0} (P : A → Type 0) {a b : A} → Path (Result A) (ok a) (ok b) → P b → P a
carried P {a} {b} e p = subst P (sym (ok_injective a b e)) p

-- A value that decodes to the response, which passes.
pub IsDecoded : Json → ApiResponse → Type 0
IsDecoded v r = (unmarshal "main.apiResponse" set_response no_response (some v) ≡ ok r) × IsPassed r

module _ {W : Type 0} (http : Http W) (settings : Settings) where
  -- A body that was read, is JSON and decodes to the response, which passes.
  pub IsBody : Result String → ApiResponse → Type 0
  IsBody b r =
      (body : String) × (v : Json) × (b ≡ ok body) × (http.parse body ≡ ok v) × IsDecoded v r

  parsed_iff :
      (status : ℕ) (body : String) (p : Result Json) (r : ApiResponse)
      → (judged status body (decode_response p) ≡ ok r) ↔ ((v : Json) × (p ≡ ok v) × IsDecoded v r)
  unfolding decode_response IsDecoded
  parsed_iff status body (err e) r =
      (λ h. absurd (refused status body e r h), λ h. absurd (not_ok e _ h.1))
  parsed_iff status body (ok v) r = (
    λ h. (v, refl, (judged_iff status body _ r).0 h),
    λ h. (judged_iff status body _ r).1 (carried (λ w. IsDecoded w r) h.1 h.2),
  )

  read_body_iff :
      (status : ℕ) (b : Result String) (r : ApiResponse)
      → (read_body http settings status b ≡ ok r) ↔ IsBody b r
  unfolding read_body IsBody
  read_body_iff status (err e) r = (λ h. ground arith, λ h. ground arith)
  read_body_iff status (ok body) r = (
    λ h.
        (let (v, p, d) = (parsed_iff status body (http.parse body) r).0 h in (body, v, refl, p, d)),
    λ h.
        (parsed_iff status body (http.parse body) r).1
          (h.1, carried (λ t. http.parse t ≡ ok h.1) h.2 h.3, h.4),
  )

  answered_iff :
      (url : String) (a : Result Response) (r : ApiResponse)
      → (answered http settings url a ≡ ok r)
        ↔ ((resp : Response) × (a ≡ ok resp) × IsBody resp.body r)
  unfolding answered
  answered_iff url (err e) r = (λ h. absurd (not_ok _ _ h), λ h. absurd (not_ok e _ h.1))
  answered_iff url (ok resp) r = (
    λ h. (resp, refl, (read_body_iff resp.status resp.body r).0 h),
    λ h.
        (read_body_iff resp.status resp.body r).1
          (carried (λ (a : Response). IsBody a.body r) h.1 h.2),
  )

  send_built_iff :
      (req : Request) (o : Option Error) (w : W) (r : ApiResponse)
      → ((send_built http settings req o w).0 ≡ ok r)
        ↔ ((o ≡ none) × (resp : Response) × ((http.send req w).0 ≡ ok resp) × IsBody resp.body r)
  unfolding send_built
  send_built_iff req none w r = (
    λ h.
        let (resp, sent, read) = (answered_iff req.url (http.send req w).0 r).0 h in
        (refl, resp, sent, read),
    λ h. (answered_iff req.url (http.send req w).0 r).1 (h.1, h.2, h.3),
  )
  send_built_iff req (some e) w r = (λ h. absurd (not_ok _ _ h), λ h. ground arith)

  -- A request gives a response exactly if the request could be built, it was answered, the answer's
  -- body could be read and is JSON that decodes to the response, and the response says that it is a
  -- success or has no error object. A failure without an error object is taken for a success.
  pub do_request_ok_iff :
      (path : String) (opts : List RequestOption) (w : W) (r : ApiResponse)
      → ((do_request http settings path opts w).0 ≡ ok r) ↔ (
          (http.new_request
              (request_to settings path opts).method
              (request_to settings path opts).url
            ≡ none)
          × (resp : Response) × ((http.send (request_to settings path opts) w).0 ≡ ok resp)
          × IsBody resp.body r)
  unfolding do_request
  do_request_ok_iff path opts w r = send_built_iff (request_to settings path opts) _ w r

  -- What the world is after a request: it was not sent, or sent once.
  abbrev pub IsSentOnce : Request → W → W → Type 0
  IsSentOnce req w w' = (w' ≡ w) ⊎ (w' ≡ (http.send req w).1)

  send_built-IsSentOnce :
      (req : Request) (o : Option Error) (w : W)
      → IsSentOnce req w (send_built http settings req o w).1
  unfolding send_built
  send_built-IsSentOnce req none w = inr refl
  send_built-IsSentOnce req (some e) w = inl refl

  pub do_request-IsSentOnce :
      (path : String) (opts : List RequestOption) (w : W)
      → IsSentOnce (request_to settings path opts) w (do_request http settings path opts w).1
  unfolding do_request
  do_request-IsSentOnce path opts w = send_built-IsSentOnce (request_to settings path opts) _ w

-- ===== src/Classifier.antt =====
-- internal/classifier/classifier_router.go: the client of the classifier service. JSON and the HTTP
-- library are arguments: the body of a request, the request that is built for an endpoint, the
-- status and body that it is answered with, and what is read of a body; each may fail.
use prompt_response.Common.{
  ℕ, ◌≡◌, ◌↔◌, refl, sym, ap, ◌∙◌, String, Option, none, some, if◌then◌else◌, ◌==◌, ==_iff,
  Bool-cases, inl, inr,
}

-- The requests and the answers have the types `Q` and `A`.
pub record Service (Q A B R : Type 0) : Type 0 where
  pub marshal : Q → Option B
  pub new_request : String → B → Option R
  pub exchange : R → Option (ℕ × B)
  pub decode : B → Option A

-- The errors of `Classify`.
pub data Error : Type 0 where
  marshaling creating calling decoding : Error
  returned : ℕ → Error

pub data Result (A : Type 0) : Type 0 where
  answer : A → Result A
  error : Error → Result A

module _ {Q A B R : Type 0} (svc : Service Q A B R) where
  read_answer : Option A → Result A
  read_answer none = error decoding
  read_answer (some a) = answer a

  check_status : Option (ℕ × B) → Result A
  unfolding read_answer
  check_status none = error calling
  check_status (some (status, body)) =
      if status == 200 then read_answer (svc.decode body) else error (returned status)

  send : Option R → Result A
  unfolding check_status
  send none = error creating
  send (some r) = check_status (svc.exchange r)

  post : String → Option B → Result A
  unfolding send
  post endpoint none = error marshaling
  post endpoint (some b) = send (svc.new_request endpoint b)

  unfoldable pub classify : String → Q → Result A
  unfolding post
  classify endpoint q = post endpoint (svc.marshal q)

  -- How an answer came about.
  abbrev Answered : String → Q → A → Type 0
  Answered endpoint q a =
      (b : B) × (r : R) × (body : B) × (svc.marshal q ≡ some b)
      × (svc.new_request endpoint b ≡ some r)
      × (svc.exchange r ≡ some (200, body))
      × (svc.decode body ≡ some a)

  read_answer-answer : (o : Option A) (a : A) → read_answer o ≡ answer a → o ≡ some a
  unfolding read_answer
  read_answer-answer none a e = cc e
  read_answer-answer (some b) a e = cc e

  check_status-answer :
      (o : Option (ℕ × B)) (a : A)
      → check_status o ≡ answer a
      → (body : B) × (o ≡ some (200, body)) × (svc.decode body ≡ some a)
  unfolding check_status
  check_status-answer none a e = cc e
  check_status-answer (some (status, body)) a e = elim (Bool-cases (status == 200)) [
    | inl ok ↦
        let run : check_status (some (status, body)) ≡ read_answer (svc.decode body) = rw ok refl in
        (
          body,
          ap (λ n. some (n, body)) ((==_iff status 200).0 ok),
          read_answer-answer (svc.decode body) a (sym run ∙ e),
        )
    | inr bad ↦
        let run : check_status (some (status, body)) ≡ error (returned status) = rw bad refl in
        cc (sym run ∙ e)
  ]

  send-answer :
      (o : Option R) (a : A)
      → send o ≡ answer a
      → (r : R) × (body : B) × (o ≡ some r)
        × (svc.exchange r ≡ some (200, body))
        × (svc.decode body ≡ some a)
  unfolding send
  send-answer none a e = cc e
  send-answer (some r) a e =
      let (body, replied, decoded) = check_status-answer (svc.exchange r) a e in
      (r, body, refl, replied, decoded)

  post-answer :
      (endpoint : String) (o : Option B) (a : A)
      → post endpoint o ≡ answer a
      → (b : B) × (o ≡ some b) × (send (svc.new_request endpoint b) ≡ answer a)
  unfolding post
  post-answer endpoint none a e = cc e
  post-answer endpoint (some b) a e = (b, refl, e)

  -- `Classify` gives an answer only if the request was marshaled, built and answered with status 200,
  -- and then it is what is read of that answer's body; and it does give it in that case.
  classify_lem :
      (endpoint : String) (q : Q) (a : A) → (classify endpoint q ≡ answer a) ↔ Answered endpoint q a
  unfolding classify post send check_status read_answer
  classify_lem endpoint q a = (
    λ e.
        let (b, marshaled, sent) = post-answer endpoint (svc.marshal q) a e in
        let (r, body, built, replied, decoded) = send-answer (svc.new_request endpoint b) a sent in
        (b, r, body, marshaled, built, replied, decoded),
    λ (b, r, body, marshaled, built, replied, decoded).
        rw (marshaled, built, replied, decoded) refl,
  )

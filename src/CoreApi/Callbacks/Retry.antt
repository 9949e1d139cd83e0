-- ===== src/CoreApi/Callbacks/Retry.antt =====
-- What the attempts of postCallbackJSON of internal/adapters/coreapi/client.go have in common.
use webguard_instance.Base.{
  ℕ, leb, ltb, String, Bool, true, false, not, ◌&&◌, none, List, [], ◌∷◌, codes, str_eq, trim_space,
  if◌then◌else◌, ◌≡◌, refl, arith, if_false, if_true, ◌||◌, sym, ◌∙◌, subst, Bool-cases, inl, inr,
}
use webguard_instance.Base.Chars.{byte_length}
use webguard_instance.Base.Result.{Result, ok, err, ok_inj}
use webguard_instance.CoreApi.{
  Client, Failure, Payload, Request, Library, Reply, refused, broken, answered, Exchange, Sending,
  KeyFile, canceled, instance_api_endpoint,
}
use webguard_instance.CoreApi.Http.{do_json, no_output, received}
use webguard_instance.CoreApi.Http.Sound.{IsBuilt, new_request-IsBuilt}
use webguard_instance.CoreApi.Calls.{post, with_key}
use webguard_instance.CoreApi.Callbacks.{
  Attempt, is_retryable_callback_error, attempts_from, attempt, after_attempt, post_callback_json,
}

abbrev is_ok : {A : Type 0} → Result Failure A → Bool
is_ok (ok a) = true
is_ok (err e) = false

abbrev is_short : String → Bool
is_short raw = leb (byte_length (codes raw)) 4194304

-- Core took the request: a response below 400 that could be read.
abbrev pub is_accepted : Reply → Bool
is_accepted (answered status raw) = is_short raw && ltb status 400
is_accepted reply = false

-- The request may not have reached Core, or Core failed with it.
abbrev pub is_unsettled : Reply → Bool
is_unsettled (answered status raw) = not (is_short raw) || leb 500 status
is_unsettled reply = true

retries : Result Failure (Unit {0}) → Bool
unfolding is_retryable_callback_error
retries (ok done) = false
retries (err e) = is_retryable_callback_error e

received_accepted : (reply : Reply) → is_ok (received no_output tt reply) ≡ is_accepted reply
unfolding received
received_accepted (refused e) = refl
received_accepted (broken e) = refl
received_accepted (answered status raw) = ground arith

received_unsettled : (reply : Reply) → retries (received no_output tt reply) ≡ is_unsettled reply
unfolding received retries
received_unsettled (refused f) = refl
received_unsettled (broken f) = refl
received_unsettled (answered status raw) = ground arith

-- The request is the callback: built by newRequest for the endpoint with the payload, and with the key.
abbrev pub IsCallback : Library → Client → String → String → Payload → Request → Type 0
IsCallback lib c path key p r =
    (file : KeyFile) × (plain : Request) × IsBuilt lib c file "POST" (instance_api_endpoint c path)
      none p plain
    × (r ≡ record plain { idempotency_key = key })

-- What a callback may do: nothing, which is an error; send one request, and succeed exactly if Core takes
-- it; or, with a key, send a second one after the first was left unsettled, and succeed exactly if Core
-- takes that one.
abbrev pub Delivers :
    Library
    → Client
    → String
    → String
    → Payload
    → List Exchange
    → Result Failure (Unit {0})
    → Type 0
Delivers lib c path key p [] r = is_ok r ≡ false
Delivers lib c path key p (x ∷ []) r =
    IsCallback lib c path key p x.request × (is_ok r ≡ is_accepted x.reply)
Delivers lib c path key p (x ∷ y ∷ []) r =
    IsCallback lib c path key p x.request
    × IsCallback lib c path key p y.request
    × (str_eq (trim_space key) "" ≡ false)
    × (is_unsettled x.reply ≡ true)
    × (is_ok r ≡ is_accepted y.reply)
Delivers lib c path key p (x ∷ y ∷ z ∷ es) r = ⊥

with_key-ok :
    (lib : Library) (c : Client) (key : String) (built : Result Failure Request) (r : Request)
    → with_key lib c key built ≡ ok r
    → (plain : Request) × (built ≡ ok plain) × (r ≡ record plain { idempotency_key = key })
unfolding with_key
with_key-ok lib c key (ok plain) r h = (plain, refl, sym (ok_inj h))
with_key-ok lib c key (err e) r h = grind arith

module _ (lib : Library) (c : Client) (path operation key : String) (p : Payload) where
  post-IsCallback :
      (file : KeyFile) (r : Request)
      → with_key lib c key (post lib c path p file) ≡ ok r
      → IsCallback lib c path key p r
  unfolding post
  post-IsCallback file r h =
      let (plain, built, same) = with_key-ok lib c key (post lib c path p file) r h in
      (
        file,
        plain,
        new_request-IsBuilt lib c file "POST" (instance_api_endpoint c path) none p plain built,
        same,
      )

  -- What a round that is the last one does.
  AtMostOne : List Exchange → Result Failure (Unit {0}) → Type 0
  AtMostOne [] r = is_ok r ≡ false
  AtMostOne (x ∷ []) r = IsCallback lib c path key p x.request × (is_ok r ≡ is_accepted x.reply)
  AtMostOne (x ∷ y ∷ es) r = ⊥

  AtMostOne-Delivers :
      (es : List Exchange) (r : Result Failure (Unit {0}))
      → AtMostOne es r
      → Delivers lib c path key p es r
  unfolding AtMostOne
  AtMostOne-Delivers [] r h = h
  AtMostOne-Delivers (x ∷ []) r h = h
  AtMostOne-Delivers (x ∷ y ∷ es) r h = elim h [ ]

  last_after :
      (a : Attempt) (next : Sending (Unit {0})) (es : List Exchange) (q : Result Failure (Unit {0}))
      → after_attempt 0 a next (es, q) ≡ (es, q)
  unfolding after_attempt
  last_after a next es (ok done) = refl
  last_after a next es (err e) = refl

  last_round :
      (a : Attempt) (next : Sending (Unit {0})) (built : Result Failure Request)
      → ((r : Request) → built ≡ ok r → IsCallback lib c path key p r)
      → AtMostOne (attempt operation 0 a built next).0 (attempt operation 0 a built next).1
  unfolding attempt do_json AtMostOne
  last_round a next (err e) callback = refl
  last_round a next (ok r) callback =
      subst (λ m. AtMostOne m.0 m.1)
        (sym (
          last_after a next (do_json no_output tt operation r a.answer.reply).0
            (do_json no_output tt operation r a.answer.reply).1))
        (callback r refl, received_accepted a.answer.reply)

  -- The result of a call, as its exchanges and its error.
  Outcome : Sending (Unit {0}) → Type 0
  Outcome m = Delivers lib c path key p m.0 m.1

  branches :
      (stop pause : Bool) (l m n : Sending (Unit {0}))
      → Outcome l
      → Outcome m
      → (stop ≡ false → Outcome n)
      → Outcome (if stop then l else if pause then m else n)
  branches true pause l m n hl hm hn = hl
  branches false true l m n hl hm hn = hm
  branches false false l m n hl hm hn = hn refl

  first_after :
      (a : Attempt) (next : Sending (Unit {0})) (x : Exchange) (q : Result Failure (Unit {0}))
      → str_eq (trim_space key) "" ≡ false
      → IsCallback lib c path key p x.request
      → is_ok q ≡ is_accepted x.reply
      → retries q ≡ is_unsettled x.reply
      → AtMostOne next.0 next.1
      → Delivers lib c path key p
          (after_attempt 1 a next (x ∷ [], q)).0
          (after_attempt 1 a next (x ∷ [], q)).1
  unfolding after_attempt AtMostOne retries Outcome
  first_after a next x (ok done) given callback accepted unsettled more = (callback, accepted)
  first_after a ([], r) x (err e) given callback accepted unsettled more =
      branches (a.done_after || not (is_retryable_callback_error e)) a.done_in_pause (x ∷ [], err e)
        (x ∷ [], err canceled) (x ∷ [], r) (callback, accepted) (callback, accepted)
        (λ t. (callback, more ∙ accepted))
  first_after a (y ∷ [], r) x (err e) given callback accepted unsettled more =
      branches (a.done_after || not (is_retryable_callback_error e)) a.done_in_pause (x ∷ [], err e)
        (x ∷ [], err canceled) (x ∷ y ∷ [], r) (callback, accepted) (callback, accepted)
        (λ t. (callback, more.0, given, ground arith, more.1))
  first_after a (y ∷ z ∷ es, r) x (err e) given callback accepted unsettled more = elim more [ ]

  first_round :
      (a : Attempt) (next : Sending (Unit {0})) (built : Result Failure Request)
      → str_eq (trim_space key) "" ≡ false
      → ((r : Request) → built ≡ ok r → IsCallback lib c path key p r)
      → AtMostOne next.0 next.1
      → Outcome (attempt operation 1 a built next)
  unfolding attempt do_json Outcome
  first_round a next (err e) given callback more = refl
  first_round a next (ok r) given callback more =
      first_after a next (record { operation = operation; request = r; reply = a.answer.reply })
        (received no_output tt a.answer.reply) given (callback r refl)
        (received_accepted a.answer.reply) (received_unsettled a.answer.reply) more

  -- A callback sends at most two requests, both of them the callback with its payload and its key; a second
  -- one only under a key and after Core left the first unsettled, that is after no response, an unreadable
  -- one, or a status from 500 on; and it succeeds exactly if Core took the last one, with a status below 400.
  pub post_callback_json-Delivers :
      (env : ℕ → Attempt)
      → Delivers lib c path key p
          (post_callback_json lib c path operation key p env).0
          (post_callback_json lib c path operation key p env).1
  unfolding post_callback_json attempts_from Outcome
  post_callback_json-Delivers env =
      let built : (i : ℕ) → Result Failure Request =
        λ i. with_key lib c key (post lib c path p (env i).answer.file) in
      let fine : (i : ℕ) (r : Request) → built i ≡ ok r → IsCallback lib c path key p r =
        λ i. post-IsCallback (env i).answer.file in
      elim (Bool-cases (str_eq (trim_space key) "")) [
        | inl e ↦
            subst (λ n. Outcome (attempts_from lib c path operation key p env n 0))
              (sym (if_true _ 1 2 e))
              (AtMostOne-Delivers _ _ (last_round (env 0) _ (built 0) (fine 0)))
        | inr e ↦
            subst (λ n. Outcome (attempts_from lib c path operation key p env n 0))
              (sym (if_false _ 1 2 e))
              (first_round (env 0) _ (built 0) e (fine 0) (last_round (env 1) _ (built 1) (fine 1)))
      ]

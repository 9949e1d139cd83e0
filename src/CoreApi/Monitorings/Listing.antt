-- ===== src/CoreApi/Monitorings/Listing.antt =====
-- Which monitorings GetMonitorings of internal/adapters/coreapi/client.go returns.
use webguard_instance.Base.{
  String, Bool, true, false, not, ◌||◌, List, [], ◌∷◌, ◌++◌, contains, str_eq, eq_iff, eq_refl,
  trim_space, if◌then◌else◌, ◌≡◌, refl, sym, ap, ◌∙◌, subst, arith, Bool-cases, inl, inr, if_false,
}
use webguard_instance.Base.Result.{Result, ok, err, ok_inj}
use webguard_instance.Monitor.Types.{Monitoring}
use webguard_instance.Base.{IsDistinct}
use webguard_instance.CoreApi.{Client, Library, Sending}
use webguard_instance.CoreApi.Calls.{Answer}
use webguard_instance.CoreApi.Monitorings.{
  fetch_monitorings, then_send, new_monitorings, seen_after, keep_new, list_types, all_types,
  get_monitorings,
}

abbrev pub ids : List Monitoring → List String
ids [] = []
ids (m ∷ ms) = m.id ∷ ids ms

new_monitorings-append :
    (seen : List String) (xs ys : List Monitoring)
    → new_monitorings seen (xs ++ ys)
      ≡ new_monitorings seen xs ++ new_monitorings (seen_after seen xs) ys
unfolding new_monitorings seen_after
new_monitorings-append seen [] ys = refl
new_monitorings-append seen (m ∷ ms) ys =
    ground (arith, new_monitorings-append seen ms ys, new_monitorings-append (m.id ∷ seen) ms ys)

pub contains-new :
    (seen : List String) (ms : List Monitoring) (id : String)
    → (contains (ids (new_monitorings seen ms)) id || contains seen id)
      ≡ (contains (ids ms) id || contains seen id)
unfolding new_monitorings
contains-new seen [] id = refl
contains-new seen (m ∷ ms) id =
    ground (arith, eq_iff m.id id, contains-new seen ms id, contains-new (m.id ∷ seen) ms id)

pub unseen :
    (seen : List String) (ms : List Monitoring) (id : String)
    → contains seen id ≡ true
    → contains (ids (new_monitorings seen ms)) id ≡ false
unfolding new_monitorings
unseen seen [] id h = refl
unseen seen (m ∷ ms) id h =
    ground (arith, eq_iff m.id id, unseen seen ms id, unseen (m.id ∷ seen) ms id)

pub IsDistinct-new :
    (seen : List String) (ms : List Monitoring) → IsDistinct (ids (new_monitorings seen ms))
unfolding new_monitorings
IsDistinct-new seen [] = tt
IsDistinct-new seen (m ∷ ms) = ground (
  arith,
  eq_refl m.id,
  IsDistinct-new seen ms,
  IsDistinct-new (m.id ∷ seen) ms,
  unseen (m.id ∷ seen) ms m.id,
)

-- The monitorings of the first answer for each type, one after the other.
module _ (items : String → List Monitoring) where
  flattened : List String → List String → List Monitoring
  flattened seen [] = []
  flattened seen (t ∷ ts) =
      let rest = flattened seen ts in
      if contains seen t then rest else items t ++ flattened (t ∷ seen) ts

  -- An ID is among the monitorings of one of the types.
  abbrev pub answered_for : List String → String → Bool
  answered_for [] id = false
  answered_for (t ∷ ts) id = contains (ids (items t)) id || answered_for ts id

  contains-append :
      (xs ys : List Monitoring) (id : String)
      → contains (ids (xs ++ ys)) id ≡ (contains (ids xs) id || contains (ids ys) id)
  contains-append [] ys id = refl
  contains-append (x ∷ xs) ys id = ground (arith, contains-append xs ys id)

  asked_before :
      (seen : List String) (t id : String)
      → contains seen t ≡ true
      → contains (ids (items t)) id ≡ true
      → answered_for seen id ≡ true
  asked_before [] t id h k = grind arith
  asked_before (s ∷ seen) t id h k = elim (Bool-cases (str_eq s t)) [
    | inl e ↦
        (let here = subst (λ u. contains (ids (items u)) id ≡ true) (sym ((eq_iff s t).0 e)) k in
          ground arith)
    | inr e ↦ ground (arith, asked_before seen t id, k)
  ]

  contains-flattened :
      (seen ts : List String) (id : String)
      → (contains (ids (flattened seen ts)) id || answered_for seen id)
        ≡ (answered_for ts id || answered_for seen id)
  unfolding flattened
  contains-flattened seen [] id = refl
  contains-flattened seen (t ∷ ts) id = ground (
    arith,
    contains-append (items t) (flattened (t ∷ seen) ts) id,
    asked_before seen t id,
    contains-flattened seen ts id,
    contains-flattened (t ∷ seen) ts id,
  )

module _ (lib : Library) (c : Client) (decode : String → Result String (List Monitoring))
    (answers : String → Answer) (items : String → List Monitoring) where
  -- Core answers every request for a type with the items of that type.
  abbrev pub IsAnswered : String → Type 0
  IsAnswered location =
      (t : String) → (fetch_monitorings lib c decode (answers t) location t).1 ≡ ok (items t)

  then_send-ok :
      {A B : Type 0} (m : Sending A) (a : A) (next : A → Sending B)
      → m.1 ≡ ok a
      → (then_send m next).1 ≡ (next a).1
  unfolding then_send
  then_send-ok (es, ok x) a next h = ap (λ y. (next y).1) (ok_inj h)
  then_send-ok (es, err e) a next h = grind arith

  either :
      (b : Bool) (m n : Sending (List Monitoring)) (xs ys : List Monitoring) (seen : List String)
      → m.1 ≡ ok (new_monitorings seen xs)
      → n.1 ≡ ok (new_monitorings seen ys)
      → (if b then m else n).1 ≡ ok (new_monitorings seen (if b then xs else ys))
  either true m n xs ys seen hm hn = hm
  either false m n xs ys seen hm hn = hn

  list_types_lem :
      (location : String) (seen_types seen types : List String)
      → IsAnswered location
      → (list_types lib c decode answers location seen_types seen types).1
        ≡ ok (new_monitorings seen (flattened items seen_types types))
  unfolding list_types flattened keep_new
  list_types_lem location seen_types seen [] answered = refl
  list_types_lem location seen_types seen (t ∷ ts) answered =
      either (contains seen_types t) _ _ (flattened items seen_types ts)
        (items t ++ flattened items (t ∷ seen_types) ts) seen
        (list_types_lem location seen_types seen ts answered)
        (then_send-ok _ (items t) _ (answered t)
          ∙ then_send-ok
              (list_types lib c decode answers location (t ∷ seen_types) (seen_after seen (items t))
                ts)
              _ _ (list_types_lem location (t ∷ seen_types) (seen_after seen (items t)) ts answered)
          ∙ ap ok
              (sym (new_monitorings-append seen (items t) (flattened items (t ∷ seen_types) ts))))

  -- If Core answers for each of the types, the result has the ID of every monitoring in the answers, each
  -- once, and no other; so a monitoring that stands in two answers, or for a type named twice, is checked once.
  pub get_monitorings_lem :
      (location type : String) (types : List String)
      → trim_space location ≡ c.instance_code
      → str_eq c.instance_code "" ≡ false
      → IsAnswered (trim_space location)
      → (ms : List Monitoring) × ((get_monitorings lib c decode answers location (type ∷ types)).1
          ≡ ok ms)
        × IsDistinct (ids ms)
        × ((id : String) → contains (ids ms) id ≡ answered_for items (type ∷ types) id)
  unfolding get_monitorings all_types
  get_monitorings_lem location type types same given answered =
      let all = flattened items [] (type ∷ types) in
      (
        new_monitorings [] all,
        ap (λ (m : Sending (List Monitoring)). m.1)
              (if_false _ _ _ (ap (λ s. str_eq s "") same ∙ given)
                ∙ if_false _ _ _ given
                ∙ if_false _ _ _ (
                    ap (λ s. not (str_eq s c.instance_code)) same
                    ∙ ap not (eq_refl c.instance_code)))
            ∙ list_types_lem (trim_space location) [] [] (type ∷ types) answered,
        IsDistinct-new [] all,
        λ id. ground (arith, contains-new [] all id, contains-flattened items [] (type ∷ types) id),
      )

-- ===== src/CoreApi/Monitorings/Once.antt =====
-- What GetMonitorings returns has no monitoring twice, whatever Core answers.
use webguard_instance.Base.{
  String, Bool, true, false, ◌||◌, not, List, [], ◌∷◌, ◌++◌, contains, str_eq, eq_iff, IsDistinct,
  IsDistinct-append, contains-append, trim_space, if◌then◌else◌, ◌≡◌, refl, sym, ap, ◌∙◌, subst,
  arith,
}
use webguard_instance.Base.Result.{Result, ok, err, ok_inj}
use webguard_instance.Monitor.Types.{Monitoring}
use webguard_instance.CoreApi.{Client, Library, Sending, Failure}
use webguard_instance.CoreApi.Calls.{Answer}
use webguard_instance.CoreApi.Monitorings.{
  fetch_monitorings, then_send, new_monitorings, seen_after, keep_new, list_types, all_types,
  get_monitorings,
}
use webguard_instance.CoreApi.Monitorings.Listing.{ids, unseen, IsDistinct-new}

-- A step that gave a value, and the value that the rest was given.
then_send-inv :
    {A B : Type 0} (m : Sending A) (next : A → Sending B) (b : B)
    → (then_send m next).1 ≡ ok b
    → (a : A) × (m.1 ≡ ok a) × ((next a).1 ≡ ok b)
unfolding then_send
then_send-inv (es, ok a) next b h = (a, refl, h)
then_send-inv (es, err e) next b h = grind arith

ids-append : (xs ys : List Monitoring) → ids (xs ++ ys) ≡ ids xs ++ ids ys
ids-append [] ys = refl
ids-append (x ∷ xs) ys = ap (λ zs. x.id ∷ zs) (ids-append xs ys)

seen_after_lem :
    (seen : List String) (ms : List Monitoring) (id : String)
    → contains (seen_after seen ms) id ≡ (contains seen id || contains (ids ms) id)
unfolding seen_after
seen_after_lem seen [] id = ground arith
seen_after_lem seen (m ∷ ms) id =
    ground (arith, seen_after_lem seen ms id, seen_after_lem (m.id ∷ seen) ms id, eq_iff m.id id)

new_monitorings-within :
    (seen : List String) (ms : List Monitoring) (id : String)
    → contains (ids (new_monitorings seen ms)) id ≡ true
    → contains (ids ms) id ≡ true
unfolding new_monitorings
new_monitorings-within seen [] id h = h
new_monitorings-within seen (m ∷ ms) id h =
    ground (arith, new_monitorings-within seen ms id, new_monitorings-within (m.id ∷ seen) ms id)

-- None twice, and none that was seen before.
abbrev Fresh : List String → List Monitoring → Type 0
Fresh seen ms =
    IsDistinct (ids ms) × ((id : String) → contains seen id ≡ true → contains (ids ms) id ≡ false)

Fresh-append :
    (seen : List String) (items more : List Monitoring)
    → Fresh (seen_after seen items) more
    → Fresh seen (new_monitorings seen items ++ more)
Fresh-append seen items more (once, apart) =
    let joined = ids-append (new_monitorings seen items) more in
    (
      subst IsDistinct (sym joined) (
          IsDistinct-append (ids (new_monitorings seen items)) (ids more)
            (IsDistinct-new seen items) once
            (λ id h. apart id (
              ground
                (arith, seen_after_lem seen items id, new_monitorings-within seen items id h)))),
      λ id h.
          ap (λ (zs : List String). contains zs id) joined
          ∙ contains-append (ids (new_monitorings seen items)) (ids more) id
          ∙ ground (arith, unseen seen items id h, apart id, seen_after_lem seen items id),
    )

either-Fresh :
    (seen : List String) (b : Bool) (m n : Sending (List Monitoring)) (ms : List Monitoring)
    → (m.1 ≡ ok ms → Fresh seen ms)
    → (n.1 ≡ ok ms → Fresh seen ms)
    → (if b then m else n).1 ≡ ok ms
    → Fresh seen ms
either-Fresh seen true m n ms hm hn h = hm h
either-Fresh seen false m n ms hm hn h = hn h

module _ (lib : Library) (c : Client) (decode : String → Result String (List Monitoring))
    (answers : String → Answer) where
  list_types-Fresh :
      (location : String) (seen_types seen types : List String) (ms : List Monitoring)
      → (list_types lib c decode answers location seen_types seen types).1 ≡ ok ms
      → Fresh seen ms
  unfolding list_types keep_new
  list_types-Fresh location seen_types seen [] ms h =
      subst (Fresh seen) (ok_inj h) (tt, λ id known. refl)
  list_types-Fresh location seen_types seen (t ∷ ts) ms h =
      either-Fresh seen (contains seen_types t) _ _ ms
        (list_types-Fresh location seen_types seen ts ms)
        (λ k.
          let (items, got, kept) =
            then_send-inv (fetch_monitorings lib c decode (answers t) location t) _ ms k in
          let (more, rest, joined) =
            then_send-inv
              (list_types lib c decode answers location (t ∷ seen_types) (seen_after seen items) ts)
              _ ms kept in
          subst (Fresh seen) (ok_inj joined) (
            Fresh-append seen items more
              (list_types-Fresh location (t ∷ seen_types) (seen_after seen items) ts more rest)))
        h

  stop_inv :
      (b : Bool) (e : Failure) (m : Sending (List Monitoring)) (ms : List Monitoring)
      → (if b then ([], err e) else m).1 ≡ ok ms
      → m.1 ≡ ok ms
  stop_inv true e m ms h = grind arith
  stop_inv false e m ms h = h

  pub get_monitorings_once :
      (location type : String) (types : List String) (ms : List Monitoring)
      → (get_monitorings lib c decode answers location (type ∷ types)).1 ≡ ok ms
      → IsDistinct (ids ms)
  unfolding get_monitorings all_types
  get_monitorings_once location type types ms h =
      let given = stop_inv (str_eq (trim_space location) "") _ _ ms h in
      let configured = stop_inv (str_eq c.instance_code "") _ _ ms given in
      let matching =
        stop_inv (not (str_eq (trim_space location) c.instance_code)) _ _ ms configured in
      (list_types-Fresh (trim_space location) [] [] (type ∷ types) ms matching).0

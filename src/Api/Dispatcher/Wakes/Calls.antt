-- ===== src/Api/Dispatcher/Wakes/Calls.antt =====
-- The steps of EnqueueControl and EnqueueStream.
use binboi_go.Base.{
  ℕ, ◌≡◌, refl, sym, ap, Bool, false, List, [], ◌∷◌, ◌++◌, Option, none, some, arith, subst,
  Bool-cases, inl, inr, All, All-weaken, if_true, if_false,
}
use binboi_go.Go.Text.{Str}
use binboi_go.Go.Map.{get, put, get-put}
use binboi_go.Api.Dispatcher.{
  Message, Consumer, idle, took, got, found_empty, sleeping, stopped, Producer, holding, stored,
  Dispatcher, new_dispatcher, enqueue_control, attached, offer, announce,
}
use binboi_go.Api.Dispatcher.Wakes.Covered.{
  is_in-append, owed_by, owed, owed-append, OnMapped, Owns, Owns-next, Owns-drop, Owns-here, Inv,
}

pub new-Inv : (capacity : ℕ) → Inv (new_dispatcher capacity)
unfolding new_dispatcher get
new-Inv capacity = record {
  named = λ id h e. absurd (cc);
  listed = λ id h e s. cc;
  owned = tt;
  current = tt;
  covered = λ c id h e q. cc;
  awake = λ c n w. (refl, refl);
}

pub controls-Inv : (m : Message) (d : Dispatcher) → Inv d → Inv (enqueue_control m d)
unfolding enqueue_control
controls-Inv m d v = record {
  named = v.named;
  listed = v.listed;
  owned = v.owned;
  current = v.current;
  covered = v.covered;
  awake = λ c n w. cc;
}

pub offer-Inv :
    (before after : List Producer) (id : Str) (h : ℕ) (m : Message) (final : Bool) (d : Dispatcher)
    → d.producers ≡ before ++ holding id h m final ∷ after
    → Inv d
    → Inv (offer before after id h m final d)
unfolding offer
offer-Inv before after id h m final d e v = record {
  named = λ j i g. ground (arith, v.named j i g);
  listed = λ j i g s. ground (arith, v.listed j i g);
  owned =
      (Owns-next d.heap d.fresh h _ before after (holding id h m final) (stored id h final) refl
        refl refl (subst (All (Owns d.heap d.fresh)) e v.owned)).0;
  current = v.current;
  covered = λ c j i g q. ground (
    arith,
    v.covered c j i g,
    owed-append i before (stored id h final ∷ after),
    owed-append i before (holding id h m final ∷ after),
    ap (owed i) e,
  );
  awake = v.awake;
}

-- A call of EnqueueStream that returns, and leaves everything else.
pub leave-Inv :
    (before after : List Producer) (p : Producer) (d : Dispatcher)
    → d.producers ≡ before ++ p ∷ after
    → ((h : ℕ) → d.closed ≡ false → owed_by h p ≡ false)
    → Inv d
    → Inv (record d { producers = before ++ after })
leave-Inv before after p d e o v = record {
  named = v.named;
  listed = v.listed;
  owned = Owns-drop d.heap d.fresh before after p (subst (All (Owns d.heap d.fresh)) e v.owned);
  current = v.current;
  covered = λ c j i g q. ground (
    arith,
    v.covered c j i g q,
    owed-append i before (p ∷ after),
    owed-append i before after,
    ap (owed i) e,
    o i c,
  );
  awake = v.awake;
}

pub announce-Inv :
    (before after : List Producer) (id : Str) (h : ℕ) (final : Bool) (d : Dispatcher)
    → d.producers ≡ before ++ stored id h final ∷ after
    → Inv d
    → Inv (announce before after id h final d)
unfolding announce
announce-Inv before after id h final d e v = elim (Bool-cases d.closed) [
  | inl y ↦
      subst Inv (sym (if_true _ _ y))
        (leave-Inv before after (stored id h final) d e (λ i n. absurd (cc)) v)
  | inr n ↦
      let o = subst (All (Owns d.heap d.fresh)) e v.owned in
      let (name, bound) = Owns-here d.heap d.fresh before after (stored id h final) o in
      subst Inv (sym (if_false _ _ n)) (record {
        named = λ j i g. ground (arith, v.named j i g);
        listed = λ j i g s.
            ground (arith, v.listed j i g, v.named j i g, is_in-append j d.ready (id ∷ []), name);
        owned =
            (Owns-next d.heap d.fresh h _ before after (stored id h final) (stored id h final) refl
              refl refl o).1;
        current = v.current;
        covered = λ c j i g q. ground (
          arith,
          v.covered n j i g,
          owed-append i before (stored id h final ∷ after),
          owed-append i before after,
          ap (owed i) e,
        );
        awake = λ c k w. ground (arith, v.awake);
      })
]

pub OnMapped-put :
    (d : Dispatcher) (id : Str) (n : ℕ) (c : Consumer)
    → get d.streams id ≡ none
    → OnMapped d.streams c
    → OnMapped (put d.streams id n) c
OnMapped-put d id n (took j h) e o = ground (arith, get-put d.streams id n j)
OnMapped-put d id n (got j h m) e o = ground (arith, get-put d.streams id n j)
OnMapped-put d id n (found_empty j h) e o = ground (arith, get-put d.streams id n j)
OnMapped-put d id n idle e o = tt
OnMapped-put d id n sleeping e o = tt
OnMapped-put d id n stopped e o = tt

pub attached-Inv :
    (found : Option ℕ) (id : Str) (m : Message) (final : Bool) (d : Dispatcher)
    → get d.streams id ≡ found
    → Inv d
    → Inv (attached found id m final d)
attached-Inv (some h) id m final d e v = record {
  named = v.named;
  listed = v.listed;
  owned = (v.named id h e, v.owned);
  current = v.current;
  covered = v.covered;
  awake = v.awake;
}
attached-Inv none id m final d e v = record {
  named = λ j i g. ground (arith, v.named j i, get-put d.streams id d.fresh j);
  listed = λ j i g s. ground (arith, v.listed j i, v.named j i, get-put d.streams id d.fresh j);
  owned = (ground arith, All-weaken _ _ d.producers (λ p o. ground arith) v.owned);
  current = OnMapped-put d id d.fresh d.consumer e v.current;
  covered =
      λ c j i g q. ground (arith, v.covered c j i, v.named j i, get-put d.streams id d.fresh j);
  awake = v.awake;
}

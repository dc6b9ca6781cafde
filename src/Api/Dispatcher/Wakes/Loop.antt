-- ===== src/Api/Dispatcher/Wakes/Loop.antt =====
-- The steps of `next`, afterStreamMessage and afterEmptyStream.
use binboi_go.Base.{
  ℕ, ◌≡◌, refl, sym, ap, ◌∙◌, Bool, true, false, not, ◌&&◌, List, [], ◌∷◌, ◌++◌, Option, none, some,
  ite, ℕ_discrete, arith, subst, Bool-cases, inl, inr, All-weaken, if_cases,
}
use binboi_go.Go.Text.{Str}
use binboi_go.Go.Map.{get, delete, get-delete}
use binboi_go.Api.Dispatcher.{
  Message, idle, took, got, found_empty, Dispatcher, update, turned, picked, taken_from, is_none,
  requeued, after_message, drained, after_empty,
}
use binboi_go.Api.Dispatcher.Wakes.Covered.{
  is_in, is_in-append, serving, OnMapped, Owns-update, Inv,
}

pub turned-Inv :
    (found : Option ℕ) (id : Str) (rest : List Str) (d : Dispatcher)
    → get d.streams id ≡ found
    → d.ready ≡ id ∷ rest
    → d.consumer ≡ idle
    → Inv d
    → Inv (turned found id rest d)
turned-Inv none id rest d e r c v = record {
  named = v.named;
  listed = λ j i g s. ground (arith, v.listed j i g s, ap (is_in j) r);
  owned = v.owned;
  current = v.current;
  covered = v.covered;
  awake = λ k. absurd (cc);
}
turned-Inv (some h) id rest d e r c v = record {
  named = λ j i g. ground (arith, v.named j i g);
  listed = λ j i g s. ground (arith, v.listed j i g, ap (is_in j) r);
  owned = All-weaken _ _ d.producers (Owns-update d.heap d.fresh h _ refl) v.owned;
  current = e;
  covered = λ o j i g q. ground (arith, v.covered o j i g, ap (serving i) c);
  awake = λ k. absurd (cc);
}

pub picked-Inv :
    (ms : List Message) (ids : List Str) (d : Dispatcher)
    → d.control ≡ ms
    → d.ready ≡ ids
    → d.consumer ≡ idle
    → Inv d
    → Inv (picked ms ids d)
picked-Inv (m ∷ ms) ids d k r c v = record {
  named = v.named;
  listed = v.listed;
  owned = v.owned;
  current = v.current;
  covered = v.covered;
  awake = λ s. absurd (cc);
}
picked-Inv [] (id ∷ rest) d k r c v = turned-Inv (get d.streams id) id rest d refl r c v
picked-Inv [] [] d k r c v = record {
  named = v.named;
  listed = v.listed;
  owned = v.owned;
  current = elim (Bool-cases d.closed) [ inl y ↦ rw y tt | inr n ↦ rw n tt ];
  covered = λ o j i g q. ground (arith, v.covered o j i g q, ap (serving i) c);
  awake = λ s o w. (r, k);
}

pub taken_from-Inv :
    (ms : List Message) (id : Str) (h : ℕ) (d : Dispatcher)
    → (d.heap h).queue ≡ ms
    → d.consumer ≡ took id h
    → Inv d
    → Inv (taken_from ms id h d)
taken_from-Inv [] id h d q c v = record {
  named = v.named;
  listed = v.listed;
  owned = v.owned;
  current = subst (OnMapped d.streams) c v.current;
  covered = λ o j i g n. ground (arith, v.covered o j i g n, ap (serving i) c);
  awake = λ s. absurd (cc);
}
taken_from-Inv (m ∷ ms) id h d q c v = record {
  named = λ j i g. ground (arith, v.named j i g);
  listed = λ j i g s. ground (arith, v.listed j i g);
  owned = All-weaken _ _ d.producers (Owns-update d.heap d.fresh h _ refl) v.owned;
  current = subst (OnMapped d.streams) c v.current;
  covered = λ o j i g n. ground (arith, v.covered o j i g, ap (serving i) c);
  awake = λ s. absurd (cc);
}

-- A stream leaves the map.
pub dropped-Inv :
    (id : Str) (ms : List Message) (d : Dispatcher)
    → ((h : ℕ) → serving h d.consumer ≡ true → get d.streams id ≡ some h)
    → Inv d
    → Inv (record d { streams = delete d.streams id; consumer = idle; sent = ms })
dropped-Inv id ms d at v = record {
  named = λ j i g. ground (arith, v.named j i, get-delete d.streams id j);
  listed = λ j i g s. ground (arith, v.listed j i, get-delete d.streams id j);
  owned = v.owned;
  current = tt;
  covered = λ o j i g n.
      ground (arith, v.covered o j i, v.named j i, at i, get-delete d.streams id j, v.named id i);
  awake = λ s. absurd (cc);
}

-- The loop goes on, from a stream whose queue is covered without it.
pub resumed-Inv :
    (ms : List Message) (d : Dispatcher)
    → ((i : ℕ)
        → serving i d.consumer ≡ true
        → is_none (d.heap i).queue ≡ false
        → (d.heap i).scheduled ≡ true)
    → Inv d
    → Inv (record d { consumer = idle; sent = ms })
resumed-Inv ms d only v = record {
  named = v.named;
  listed = v.listed;
  owned = v.owned;
  current = tt;
  covered = λ o j i g n. ground (arith, v.covered o j i g n, only i);
  awake = λ s. absurd (cc);
}

pub requeue-Inv :
    (id : Str) (ms : List Message) (d : Dispatcher) (h : ℕ)
    → get d.streams id ≡ some h
    → ((i : ℕ) → serving i d.consumer ≡ true → i ≡ h)
    → Inv d
    → Inv (record d {
      heap = update d.heap h (record (d.heap h) { scheduled = true });
      ready = d.ready ++ id ∷ [];
      wake = true;
      consumer = idle;
      sent = ms;
    })
requeue-Inv id ms d h e only v = record {
  named = λ j i g. ground (arith, v.named j i g);
  listed = λ j i g s.
      ground
        (arith, v.listed j i g, v.named j i g, v.named id h e, is_in-append j d.ready (id ∷ []));
  owned = All-weaken _ _ d.producers (Owns-update d.heap d.fresh h _ refl) v.owned;
  current = tt;
  covered = λ o j i g n. ground (arith, v.covered o j i g, only i);
  awake = λ s. absurd (cc);
}

pub serving-at : (i h : ℕ) → ite (ℕ_discrete h i) true false ≡ true → i ≡ h
serving-at i h e = ground arith

pub not-and : (a b : Bool) → (not a && not b) ≡ false → a ≡ false → b ≡ true
not-and true b h e = absurd (cc)
not-and false true h e = refl
not-and false false h e = absurd (cc)

pub after_message-Inv :
    (id : Str) (h : ℕ) (m : Message) (d : Dispatcher)
    → d.consumer ≡ got id h m
    → Inv d
    → Inv (after_message id m d)
unfolding after_message
after_message-Inv id h m d c v =
    let e = subst (OnMapped d.streams) c v.current in
    let only : (i : ℕ) → serving i d.consumer ≡ true → i ≡ h =
      λ i s. serving-at i h (sym (ap (serving i) c) ∙ s) in
    subst
      (λ o.
        Inv (record (requeued o id d) { consumer = idle; sent = (requeued o id d).sent ++ m ∷ [] }))
      (sym e)
      (if_cases (λ (x : Dispatcher). Inv (record x { consumer = idle; sent = x.sent ++ m ∷ [] })) _
        _ _ (λ y. requeue-Inv id _ d h e only v)
        (λ n.
          if_cases (λ (x : Dispatcher). Inv (record x { consumer = idle; sent = x.sent ++ m ∷ [] }))
            _ _ _ (λ y. dropped-Inv id _ d (λ i s. e ∙ ap some (sym (only i s))) v)
            (λ k.
              resumed-Inv _ d
                (λ i s q.
                  rw (only i s)
                    (not-and (is_none (d.heap h).queue) (d.heap h).scheduled n (rw⁻¹ (only i s) q)))
                v)))

pub after_empty-Inv :
    (id : Str) (h : ℕ) (d : Dispatcher)
    → d.consumer ≡ found_empty id h
    → Inv d
    → Inv (after_empty id d)
unfolding after_empty
after_empty-Inv id h d c v =
    let e = subst (OnMapped d.streams) c v.current in
    subst (λ o. Inv (record (drained o id d) { consumer = idle })) (sym e)
      (if_cases (λ (x : Dispatcher). Inv (record x { consumer = idle })) _ _ _
        (λ y. dropped-Inv id _ d (λ i s. absurd (cc (ap (serving i) c))) v)
        (λ k. resumed-Inv _ d (λ i s. absurd (cc (ap (serving i) c))) v))

-- ===== src/Stream/Order.antt =====
-- What a subscriber of a job's events receives (backend/internal/api/logstream.go).
use mathlib.Core.List.{append_assoc, append-nil}
use mathlib.Core.Path.{subst}
use encode_system.Prelude.{
  ℕ, ◌+◌, ◌≤◌, ◌<◌, ◌≡◌, ◌⊎◌, inl, inr, refl, sym, ap, ◌∙◌, List, [], ◌∷◌, ◌++◌, Bool, true, false,
  Option, none, some, arith, ◌==◌, ltb, Bool-cases, length, length-append, All, if◌then◌else◌,
}
use encode_system.Table.{select_one, delete_where}
use encode_system.Table.Counts.{select_one-some}
use encode_system.Table.Rows.{changed, select_one-update}
use encode_system.Stream.{
  log_stream_chan_cap, SseEvent, Subscriber, LogHub, subscribe, unsubscribe, offer, publish,
  receive, tail_of,
}

pub data HubOp : Type 0 where
  subscribes unsubscribes receives : ℕ → HubOp
  publishes : ℕ → SseEvent → HubOp

abbrev pub apply : HubOp → LogHub → LogHub
apply (subscribes job) h = (subscribe job h).0
apply (unsubscribes c) h = unsubscribe c h
apply (receives c) h = receive c h
apply (publishes job ev) h = publish job ev h

unfoldable pub run_hub : List HubOp → LogHub → LogHub
run_hub [] h = h
run_hub (op ∷ ops) h = run_hub ops (apply op h)

abbrev pub subscriber : ℕ → LogHub → Option Subscriber
subscriber c h = select_one (λ u. u.channel == c) h.subs

abbrev front_of : List SseEvent → List SseEvent
front_of [] = []
front_of (ev ∷ evs) = ev ∷ []

abbrev first_waiting : Option Subscriber → List SseEvent
first_waiting none = []
first_waiting (some u) = front_of u.waiting

-- what one operation hands to the channel, and what a run does
abbrev taken : ℕ → HubOp → LogHub → List SseEvent
taken c (receives d) h = if d == c then first_waiting (subscriber c h) else []
taken c _ h = []

unfoldable pub received_by : ℕ → List HubOp → LogHub → List SseEvent
received_by c [] h = []
received_by c (op ∷ ops) h = taken c op h ++ received_by c ops (apply op h)

abbrev published_one : ℕ → HubOp → List SseEvent
published_one job (publishes k ev) = if k == job then ev ∷ [] else []
published_one job _ = []

unfoldable pub published_to : ℕ → List HubOp → List SseEvent
published_to job [] = []
published_to job (op ∷ ops) = published_one job op ++ published_to job ops

-- the first list is the second with some events left out
pub data Within : List SseEvent → List SseEvent → Type 0 where
  empty : Within [] []
  kept : {ev : SseEvent} {xs ys : List SseEvent} → Within xs ys → Within (ev ∷ xs) (ev ∷ ys)
  dropped : {ev : SseEvent} {xs ys : List SseEvent} → Within xs ys → Within xs (ev ∷ ys)

Within-refl : (xs : List SseEvent) → Within xs xs
Within-refl [] = empty
Within-refl (x ∷ xs) = kept (Within-refl xs)

-- one more event that was left out
Within-insert :
    (ev : SseEvent) (xs ys zs : List SseEvent) → Within xs (ys ++ zs) → Within xs (ys ++ ev ∷ zs)
Within-insert ev xs [] zs w = dropped w
Within-insert ev (x ∷ xs) (y ∷ ys) zs (kept w) = kept (Within-insert ev xs ys zs w)
Within-insert ev xs (y ∷ ys) zs (dropped w) = dropped (Within-insert ev xs ys zs w)

Within-prefix : (ts xs ys : List SseEvent) → Within xs ys → Within (ts ++ xs) (ts ++ ys)
Within-prefix [] xs ys w = w
Within-prefix (t ∷ ts) xs ys w = kept (Within-prefix ts xs ys w)

-- the channel is open for the job, holds no more than the cap, and no new one can have its number
abbrev pub Subscribed : ℕ → ℕ → LogHub → Subscriber → Type 0
Subscribed c job h u =
    (subscriber c h ≡ some u)
    × (u.job ≡ job)
    × (length u.waiting ≤ log_stream_chan_cap)
    × (c < h.next_channel)

-- One operation hands over what it takes, and keeps the rest with what it publishes to the job, or finds
-- the channel full and drops the event.
abbrev Moved : List SseEvent → List SseEvent → List SseEvent → List SseEvent → Type 0
Moved ts before ps after =
    (ts ++ after ≡ before ++ ps)
    ⊎ ((ev : SseEvent) × (ts ≡ [])
        × (ps ≡ ev ∷ [])
        × (after ≡ before)
        × (length before ≡ log_stream_chan_cap))

abbrev Keeps : ℕ → HubOp → Type 0
Keeps c (unsubscribes d) = (d == c) ≡ false
Keeps c _ = Unit {0}

select_one-delete_other :
    (p q : Subscriber → Bool)
    → ((u : Subscriber) → p u ≡ true → q u ≡ false)
    → (us : List Subscriber) → select_one p (delete_where q us) ≡ select_one p us
unfolding select_one delete_where
select_one-delete_other p q other [] = refl
select_one-delete_other p q other (u ∷ us) = elim (Bool-cases (p u)) [
  | inl e ↦ rw (other u e) (rw e refl)
  | inr e ↦ elim (Bool-cases (q u)) [
    | inl d ↦ rw d (rw e (select_one-delete_other p q other us))
    | inr d ↦ rw d (rw e (select_one-delete_other p q other us))
  ]
]

abbrev Next : ℕ → ℕ → HubOp → LogHub → Subscriber → Type 0
Next c job op h u =
    (v : Subscriber) × Subscribed c job (apply op h) v
    × Moved (taken c op h) u.waiting (published_one job op) v.waiting

publish-Next :
    (c job k : ℕ) (ev : SseEvent) (h : LogHub) (u : Subscriber)
    → Subscribed c job h u
    → Next c job (publishes k ev) h u
unfolding publish offer
publish-Next c job k ev h u (found, own, few, old) =
    let after =
      select_one-update (λ v. v.channel == c) (λ v. v.job == k) (offer ev) (λ v. refl) h.subs
      ∙ ap (changed (λ v. v.job == k) (offer ev)) found in
    elim (Bool-cases (k == job)) [
      | inl e ↦
          let here : (u.job == k) ≡ true = ground (arith, own, e) in
          let mine : subscriber c (publish k ev h) ≡ some (offer ev u) = after ∙ rw here refl in
          elim (Bool-cases (ltb (length u.waiting) log_stream_chan_cap)) [
            | inl r ↦ (
              offer ev u,
              (mine, own, rw r (ground (arith, r, length-append u.waiting (ev ∷ []))), old),
              rw e (inl (rw r refl)),
            )
            | inr r ↦ (
              offer ev u,
              (mine, own, rw r few, old),
              rw e (inr (ev, refl, refl, rw r refl, ground (arith, r, few))),
            )
          ]
      | inr e ↦
          let other : (u.job == k) ≡ false = ground (arith, own, e) in
          (u, (after ∙ rw other refl, own, few, old), rw e (inl (sym (append-nil u.waiting))))
    ]

front-tail : (w : List SseEvent) → front_of w ++ tail_of w ≡ w
front-tail [] = refl
front-tail (ev ∷ evs) = refl

length-tail : (w : List SseEvent) → length (tail_of w) ≤ length w
length-tail [] = omega arith
length-tail (ev ∷ evs) = omega arith

receive-Next :
    (c job d : ℕ) (h : LogHub) (u : Subscriber) → Subscribed c job h u → Next c job (receives d) h u
unfolding receive
receive-Next c job d h u (found, own, few, old) =
    let pop = λ (v : Subscriber). record v { waiting = tail_of v.waiting } in
    let after =
      select_one-update (λ v. v.channel == c) (λ v. v.channel == d) pop (λ v. refl) h.subs
      ∙ ap (changed (λ v. v.channel == d) pop) found in
    elim (Bool-cases (d == c)) [
      | inl e ↦
          let here : (u.channel == d) ≡ true =
            ground (arith, (select_one-some (λ v. v.channel == c) h.subs found).0, e) in
          (
            pop u,
            (after ∙ rw here refl, own, omega (arith, few, length-tail u.waiting), old),
            rw e (rw found (inl (front-tail u.waiting ∙ sym (append-nil u.waiting)))),
          )
      | inr e ↦
          let other : (u.channel == d) ≡ false =
            ground (arith, (select_one-some (λ v. v.channel == c) h.subs found).0, e) in
          (u, (after ∙ rw other refl, own, few, old), rw e (inl (sym (append-nil u.waiting))))
    ]

op-Next :
    (c job : ℕ) (op : HubOp) (h : LogHub) (u : Subscriber)
    → Keeps c op
    → Subscribed c job h u
    → Next c job op h u
unfolding subscribe unsubscribe select_one
op-Next c job (publishes k ev) h u keeps s = publish-Next c job k ev h u s
op-Next c job (receives d) h u keeps s = receive-Next c job d h u s
op-Next c job (subscribes k) h u keeps (found, own, few, old) =
    let fresh : (h.next_channel == c) ≡ false = ground (arith, old) in
    (u, (rw fresh found, own, few, omega (arith, old)), inl (sym (append-nil u.waiting)))
op-Next c job (unsubscribes d) h u keeps (found, own, few, old) = (
  u,
  (
    select_one-delete_other (λ v. v.channel == c) (λ v. v.channel == d)
          (λ v e. ground (arith, e, keeps)) h.subs
        ∙ found,
    own,
    few,
    old,
  ),
  inl (sym (append-nil u.waiting)),
)

-- what a run hands over and leaves waiting, of what was waiting and what it publishes
abbrev pub Delivered : ℕ → ℕ → List HubOp → LogHub → Subscriber → Type 0
Delivered c job ops h u =
    (v : Subscriber) × Subscribed c job (run_hub ops h) v
    × Within (received_by c ops h ++ v.waiting) (u.waiting ++ published_to job ops)
    × (length u.waiting + length (published_to job ops) ≤ log_stream_chan_cap
        → received_by c ops h ++ v.waiting ≡ u.waiting ++ published_to job ops)

regroup :
    (ts after before ps more : List SseEvent)
    → ts ++ after ≡ before ++ ps
    → ts ++ (after ++ more) ≡ before ++ (ps ++ more)
regroup ts after before ps more e =
    sym (append_assoc ts after more) ∙ ap (λ z. z ++ more) e ∙ append_assoc before ps more

-- how the rest of a run goes on from one operation
Moved-rest :
    (ts got wait before ps more after : List SseEvent)
    → Moved ts before ps after
    → Within (got ++ wait) (after ++ more)
    → (length after + length more ≤ log_stream_chan_cap → got ++ wait ≡ after ++ more)
    → Within (ts ++ got ++ wait) (before ++ (ps ++ more))
      × (length before + length (ps ++ more) ≤ log_stream_chan_cap
          → ts ++ got ++ wait ≡ before ++ (ps ++ more))
Moved-rest ts got wait before ps more after (inl e) within all =
    let grouped = regroup ts after before ps more e in
    (
      subst (λ z. Within z (before ++ (ps ++ more))) (sym (append_assoc ts got wait))
          (subst (Within (ts ++ (got ++ wait))) grouped
            (Within-prefix ts (got ++ wait) (after ++ more) within)),
      λ few.
          append_assoc ts got wait
          ∙ ap (λ z. ts ++ z)
              (all (
                omega (
                  arith,
                  few,
                  length-append ts after,
                  length-append before ps,
                  length-append ps more,
                  ap length e,
                )))
          ∙ grouped,
    )
Moved-rest ts got wait before ps more after (inr (ev, no_t, one, same, full)) within all = (
  subst (λ z. Within (z ++ got ++ wait) (before ++ (ps ++ more))) (sym no_t)
      (subst (λ z. Within (got ++ wait) (before ++ (z ++ more))) (sym one)
        (Within-insert ev (got ++ wait) before more
          (subst (λ z. Within (got ++ wait) (z ++ more)) same within))),
  λ few. absurd (omega (arith, few, full, length-append ps more, ap length one)),
)

-- Whatever the others do, the events that an open channel has handed over and still holds are those that
-- were waiting and then those published to its job, in their order, with some of them left out when the
-- channel was full; none is left out when they are at most 64 in all. No more than 64 ever wait.
pub run_hub-Delivered :
    (c job : ℕ) (ops : List HubOp) (h : LogHub) (u : Subscriber)
    → All (Keeps c) ops
    → Subscribed c job h u
    → Delivered c job ops h u
unfolding run_hub received_by published_to
run_hub-Delivered c job [] h u keeps s = (
  u,
  s,
  subst (λ z. Within u.waiting z) (sym (append-nil u.waiting)) (Within-refl u.waiting),
  λ few. sym (append-nil u.waiting),
)
run_hub-Delivered c job (op ∷ ops) h u (keep, keeps) s =
    let (v, open_v, moved) = op-Next c job op h u keep s in
    let (w, open_w, within, all) = run_hub-Delivered c job ops (apply op h) v keeps open_v in
    let (rest_within, rest_all) =
      Moved-rest (taken c op h) (received_by c ops (apply op h)) w.waiting u.waiting
        (published_one job op) (published_to job ops) v.waiting moved within all in
    (w, open_w, rest_within, rest_all)

-- ===== src/Render/Functions.antt =====
-- Which function a rendered script calls (backend/internal/flow/render.go).
use mathlib.Core.List.{Memᴰ}
use mathlib.Core.Path.{subst}
use Prim.Native.String.{String}
use encode_system.Prelude.{
  ℕ, suc, ◌≡◌, inl, inr, refl, sym, ap, ◌∙◌, List, [], ◌∷◌, true, false, not, ◌||◌, Option, none,
  some, arith, ◌=s=◌, Bool-cases, eq_iff,
}
use encode_system.Prelude.Results.{ok, guard_passed, or_err_passed, bind_passed}
use encode_system.Table.Counts.{Memᴰ-uncons}
use encode_system.Render.{
  Step, StepTemplate, Plan, Vars, RenderJob, Dialect, unknown_template, bad_body, no_function,
  no_steps, bad_job, same_function, unsafe_type, Linked, owner, owned_by_other, has_steps,
  link_step, link_steps, emit_calls, render_dialect,
}

owner-key :
    (key k : String) (o : Option String) → o ≡ some k → owned_by_other key o ≡ false → k ≡ key
owner-key key k none q h = cc
owner-key key k (some j) q h =
    let same : j ≡ k = cc q in
    let hit : (j =s= key) ≡ true = ground (arith, h) in sym same ∙ (eq_iff j key).0 hit

module _ (resolve : String → Option StepTemplate) (d : Dialect) where
  abbrev fn : Linked → String
  fn l = d.func_name l.body

  -- what one round of the calls has checked
  emit_calls-step :
      (i : ℕ) (invoked : List (String × String)) (l : Linked) (ls : List Linked) (out : List String)
      → emit_calls resolve d i invoked (l ∷ ls) ≡ ok out
      → (owned_by_other l.template.key (owner (fn l) invoked) ≡ false)
        × (rest : List String) × (emit_calls resolve d (suc i) ((fn l, l.template.key) ∷ invoked) ls
            ≡ ok rest)
  unfolding emit_calls
  emit_calls-step i invoked l ls out h =
      let (a, h1) =
        guard_passed (not (owned_by_other l.template.key (owner (fn l) invoked))) same_function h in
      let (b, h2) = guard_passed (not (d.safe_ident l.step.step_type =s= "")) unsafe_type h1 in
      let (rest, e, h3) =
        bind_passed (emit_calls resolve d (suc i) ((fn l, l.template.key) ∷ invoked) ls) _ h2 in
      (ground (arith, a), rest, e)

  -- a function that is owned before a step belongs to the step's own key
  owned-key :
      (i : ℕ) (invoked : List (String × String)) (ls : List Linked) (out : List String) (l : Linked)
      (k : String)
      → emit_calls resolve d i invoked ls ≡ ok out
      → Memᴰ l ls
      → owner (fn l) invoked ≡ some k
      → k ≡ l.template.key
  unfolding owner
  owned-key i invoked [] out l k h m q = elim m [ ]
  owned-key i invoked (x ∷ xs) out l k h m q =
      let (clear, rest, h') = emit_calls-step i invoked x xs out h in
      elim (Memᴰ-uncons m) [
        | inl e ↦
            let q' = subst (λ z. owner (fn z) invoked ≡ some k) e q in
            owner-key x.template.key k (owner (fn x) invoked) q' clear
            ∙ ap (λ z. z.template.key) (sym e)
        | inr t ↦ elim (Bool-cases (fn x =s= fn l)) [
          | inl same ↦
              let xl : fn x ≡ fn l = (eq_iff (fn x) (fn l)).0 same in
              let q' = subst (λ z. owner z invoked ≡ some k) (sym xl) q in
              owner-key x.template.key k (owner (fn x) invoked) q' clear
              ∙ owned-key (suc i) ((fn x, x.template.key) ∷ invoked) xs rest l x.template.key h' t
                  (rw same refl)
          | inr other ↦
              owned-key (suc i) ((fn x, x.template.key) ∷ invoked) xs rest l k h' t (rw other q)
        ]
      ]

  -- a later step with the same function has the same key
  later-key :
      (i : ℕ) (invoked : List (String × String)) (x : Linked) (xs : List Linked) (out : List String)
      (l : Linked)
      → emit_calls resolve d i invoked (x ∷ xs) ≡ ok out
      → Memᴰ l xs
      → fn x ≡ fn l
      → x.template.key ≡ l.template.key
  unfolding owner
  later-key i invoked x xs out l h m q =
      let (clear, rest, h') = emit_calls-step i invoked x xs out h in
      let same : (fn x =s= fn l) ≡ true = (eq_iff (fn x) (fn l)).1 q in
      owned-key (suc i) ((fn x, x.template.key) ∷ invoked) xs rest l x.template.key h' m
        (rw same refl)

  calls-key :
      (i : ℕ) (invoked : List (String × String)) (ls : List Linked) (out : List String)
      (l m : Linked)
      → emit_calls resolve d i invoked ls ≡ ok out
      → Memᴰ l ls
      → Memᴰ m ls
      → fn l ≡ fn m
      → l.template.key ≡ m.template.key
  calls-key i invoked [] out l m h ml mm q = elim ml [ ]
  calls-key i invoked (x ∷ xs) out l m h ml mm q =
      let (clear, rest, h') = emit_calls-step i invoked x xs out h in
      elim (Memᴰ-uncons ml) [
        | inl e ↦ elim (Memᴰ-uncons mm) [
          | inl e' ↦ ap (λ z. z.template.key) (e ∙ sym e')
          | inr t ↦
              ap (λ z. z.template.key) e ∙ later-key i invoked x xs out m h t (ap fn (sym e) ∙ q)
        ]
        | inr t ↦ elim (Memᴰ-uncons mm) [
          | inl e' ↦
              sym (later-key i invoked x xs out l h t (ap fn (sym e') ∙ sym q))
              ∙ ap (λ z. z.template.key) (sym e')
          | inr t' ↦ calls-key (suc i) ((fn x, x.template.key) ∷ invoked) xs rest l m h' t t' q
        ]
      ]

  -- where a linked step comes from
  abbrev pub LinkedFrom : Step → Linked → Type 0
  LinkedFrom st l =
      (l.step ≡ st)
      × (resolve st.step_type ≡ some l.template)
      × (d.step_body l.template ≡ some l.body)
      × ((fn l =s= "") ≡ false)

  link_step-parts : (st : Step) (l : Linked) → link_step resolve d st ≡ ok l → LinkedFrom st l
  unfolding link_step
  link_step-parts st l h =
      let (t, et, h1) = or_err_passed unknown_template (resolve st.step_type) _ h in
      let (body, eb, h2) = or_err_passed bad_body (d.step_body t) _ h1 in
      let (named, h3) = guard_passed (not (d.func_name body =s= "")) no_function h2 in
      let made : Linked = record { step = st; template = t; body = body } in
      let e : made ≡ l = cc h3 in subst (LinkedFrom st) e (refl, et, eb, ground (arith, named))

  link_steps-Linked :
      (sts : List Step) (ls : List Linked) (st : Step)
      → link_steps resolve d sts ≡ ok ls
      → Memᴰ st sts
      → (l : Linked) × Memᴰ l ls × LinkedFrom st l
  unfolding link_steps
  link_steps-Linked [] ls st h m = elim m [ ]
  link_steps-Linked (x ∷ xs) ls st h m =
      let (y, ey, h1) = bind_passed (link_step resolve d x) _ h in
      let (ys, eys, h2) = bind_passed (link_steps resolve d xs) _ h1 in
      let e : y ∷ ys ≡ ls = cc h2 in
      elim (Memᴰ-uncons m) [
        | inl q ↦ (
          y,
          subst (Memᴰ y) e (Memᴰ.head refl),
          subst (λ z. LinkedFrom z y) (sym q) (link_step-parts x y ey),
        )
        | inr t ↦
            let (l, ml, from) = link_steps-Linked xs ys st eys t in
            (l, subst (Memᴰ l) e (Memᴰ.tail ml), from)
      ]

  -- When a flow renders, each of its steps has a template and a body in which the dialect finds a function
  -- name, and two steps in whose bodies it finds the same name, character for character, have templates of
  -- the same key.
  pub render-functions :
      (episode_number : String → String) (f : Plan) (j : RenderJob) (v : Vars) (texts : List String)
      (st su : Step)
      → render_dialect resolve d episode_number f j v ≡ ok texts
      → Memᴰ st f.steps
      → Memᴰ su f.steps
      → (l : Linked) × (m : Linked) × LinkedFrom st l
        × LinkedFrom su m
        × (fn l ≡ fn m → l.template.key ≡ m.template.key)
  unfolding render_dialect
  render-functions episode_number f j v texts st su h mt mu =
      let (a, h1) = guard_passed (has_steps f.steps) no_steps h in
      let (b, h2) = guard_passed (not (j.series =s= "" || j.episode_dir =s= "")) bad_job h1 in
      let (ls, els, h3) = bind_passed (link_steps resolve d f.steps) _ h2 in
      let (calls, ec, h4) = bind_passed (emit_calls resolve d 0 [] ls) _ h3 in
      let (l, ml, from_l) = link_steps-Linked f.steps ls st els mt in
      let (m, mm, from_m) = link_steps-Linked f.steps ls su els mu in
      (l, m, from_l, from_m, calls-key 0 [] ls calls l m ec ml mm)

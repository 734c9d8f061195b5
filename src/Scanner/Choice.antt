-- ===== src/Scanner/Choice.antt =====
-- The filter script that inspectEpisode chooses from a listing (backend/internal/scanner/scanner.go).
use Prim.Native.String.{String, ◌++◌ as ◌++ˢ◌}
use text.Mathlib.TextEquality.{starts_with_iff}
use text.Mathlib.TextLemmas.{append_assoc}
use mathlib.Core.List.{Memᴰ}
use mathlib.Core.Path.{subst}
use encode_system.Prelude.{
  ℕ, ◌≤◌, ◌≡◌, ◌⊎◌, inl, inr, refl, sym, ◌∙◌, List, [], ◌∷◌, true, false, arith, if◌then◌else◌,
  ◌=s=◌, Bool-cases, eq_iff,
}
use encode_system.Table.Counts.{Memᴰ-uncons}
use encode_system.Scanner.{
  Entry, Picked, nothing_picked, path_ext, is_script_ext, has_prefix, choose_script, pick_source,
  pick_script, pick_file, pick_files,
}

-- The place of a script in the documented order.
unfoldable pub rank : String → ℕ
rank name =
    if has_prefix name "2160.vpy"
    then 5
    else if has_prefix name "2160.avs"
    then 4
    else if has_prefix name "1080.vpy"
    then 3
    else if has_prefix name "1080.avs"
    then 2
    else if name =s= ""
    then 0
    else 1

-- No name starts with 2160 in another way.
abbrev pub Tidy : String → Type 0
Tidy name = has_prefix name "2160" ≡ true → 4 ≤ rank name

has_prefix_shorter : (a b s : String) → has_prefix s (a ++ˢ b) ≡ true → has_prefix s a ≡ true
unfolding has_prefix
has_prefix_shorter a b s h =
    let (u, e) = (starts_with_iff s (a ++ˢ b)).0 h in
    (starts_with_iff s a).1 (b ++ˢ u, sym (append_assoc a b u) ∙ e)

blank-rank : (s : String) → s =s= "" ≡ true → rank s ≡ 0
unfolding rank has_prefix
blank-rank s h = subst (λ z. rank z ≡ 0) (sym ((eq_iff s "").0 h)) refl

-- the choice is one of the two, and neither is before it in the order
choose_script-rank :
    (script name : String)
    → Tidy script
    → Tidy name
    → ((choose_script script name ≡ script) ⊎ (choose_script script name ≡ name))
      × (rank script ≤ rank (choose_script script name))
      × (rank name ≤ rank (choose_script script name))
unfolding choose_script rank
choose_script-rank script name hs hn =
    let a : has_prefix script "2160.vpy" ≡ true → has_prefix script "2160" ≡ true =
      has_prefix_shorter "2160" ".vpy" script in
    let b : has_prefix script "2160.avs" ≡ true → has_prefix script "2160" ≡ true =
      has_prefix_shorter "2160" ".avs" script in
    ground (arith, blank-rank script)

-- a script file of the listing
abbrev pub IsScript : (String → String) → Entry → Type 0
IsScript to_lower e = (e.is_dir ≡ false) × (is_script_ext (to_lower (path_ext e.name)) ≡ true)

-- `s` is chosen from the entries, or was there before
abbrev Chosen : (String → String) → List Entry → String → String → Type 0
Chosen to_lower es before s =
    ((s ≡ before) ⊎ ((e : Entry) × Memᴰ e es × IsScript to_lower e × (s ≡ e.name)))
    × (rank before ≤ rank s)
    × ((e : Entry) → Memᴰ e es → IsScript to_lower e → rank e.name ≤ rank s)

pick_source-script : (ext name : String) (p : Picked) → (pick_source ext name p).script ≡ p.script
unfolding pick_source
pick_source-script ext name p = ground arith

pick_file-script :
    (to_lower : String → String) (name : String) (p : Picked)
    → (pick_file to_lower name p).script
      ≡ (if is_script_ext (to_lower (path_ext name)) then choose_script p.script name else p.script)
unfolding pick_file pick_script
pick_file-script to_lower name p =
    let ext = to_lower (path_ext name) in
    let h = pick_source-script ext name p in
    elim (Bool-cases (is_script_ext ext)) [ inl e ↦ rw e (rw h refl) | inr e ↦ rw e (rw h refl) ]

-- one entry's round
abbrev round : (String → String) → Entry → Picked → Picked
round to_lower e p = if e.is_dir then p else pick_file to_lower e.name p

round_lem :
    (to_lower : String → String) (e : Entry) (p : Picked)
    → Tidy p.script
    → Tidy e.name
    → (((round to_lower e p).script ≡ p.script)
        ⊎ (IsScript to_lower e × ((round to_lower e p).script ≡ e.name)))
      × (rank p.script ≤ rank (round to_lower e p).script)
      × (IsScript to_lower e → rank e.name ≤ rank (round to_lower e p).script)
round_lem to_lower e p hp he = elim (Bool-cases e.is_dir) [
  | inl d ↦ rw d (inl refl, omega arith, λ h. absurd (ground (arith, d, h.0)))
  | inr d ↦ elim (Bool-cases (is_script_ext (to_lower (path_ext e.name)))) [
    | inl x ↦
        let (which, over_p, over_e) = choose_script-rank p.script e.name hp he in
        rw d (
          rw (pick_file-script to_lower e.name p) (
            rw x
              (elim which [ inl q ↦ inl q | inr q ↦ inr ((refl, refl), q) ], over_p, λ h. over_e)))
    | inr x ↦ rw d (
        rw (pick_file-script to_lower e.name p)
          (rw x (inl refl, omega arith, λ h. absurd (ground (arith, x, h.1)))))
  ]
]

Tidy-round :
    (to_lower : String → String) (e : Entry) (p : Picked)
    → Tidy p.script
    → Tidy e.name
    → Tidy (round to_lower e p).script
Tidy-round to_lower e p hp he = elim (round_lem to_lower e p hp he).0 [
  | inl q ↦ subst Tidy (sym q) hp
  | inr q ↦ subst Tidy (sym q.1) he
]

pick_files-Chosen :
    (to_lower : String → String) (es : List Entry) (p : Picked)
    → Tidy p.script
    → ((e : Entry) → Memᴰ e es → Tidy e.name)
    → Chosen to_lower es p.script (pick_files to_lower es p).script
unfolding pick_files
pick_files-Chosen to_lower [] p hp h = (inl refl, omega arith, λ e m. elim m [ ])
pick_files-Chosen to_lower (e ∷ es) p hp h =
    let he = h e (Memᴰ.head refl) in
    let (which, over_p, over_e) = round_lem to_lower e p hp he in
    let (chosen, over_q, over_es) =
      pick_files-Chosen to_lower es (round to_lower e p) (Tidy-round to_lower e p hp he)
        (λ f m. h f (Memᴰ.tail m)) in
    (
      elim chosen [
        | inl q ↦ elim which [ inl r ↦ inl (q ∙ r) | inr r ↦ inr (e, Memᴰ.head refl, r.0, q ∙ r.1) ]
        | inr r ↦ let (f, mf, hf, q) = r in inr (f, Memᴰ.tail mf, hf, q)
      ],
      omega (arith, over_p, over_q),
      λ f m hf. elim (Memᴰ-uncons m) [
        | inl q ↦
            let a = over_e (subst (IsScript to_lower) q hf) in
            let last = rank (pick_files to_lower es (round to_lower e p)).script in
            let b : rank e.name ≤ last = omega (arith, a, over_q) in
            subst (λ z. rank z.name ≤ last) (sym q) b
        | inr t ↦ over_es f t hf
      ],
    )

-- Of a listing in which no name starts with 2160 but as 2160.vpy or 2160.avs, in any order: the
-- script that the scan takes is the name of one of the script files, or is empty, and no script file
-- of the listing comes before it in the order 2160.vpy, 2160.avs, 1080.vpy, 1080.avs, any other.
pub pick_files-rank :
    (to_lower : String → String) (es : List Entry)
    → ((e : Entry) → Memᴰ e es → Tidy e.name)
    → (((pick_files to_lower es nothing_picked).script ≡ "")
        ⊎ ((e : Entry) × Memᴰ e es
            × IsScript to_lower e
            × ((pick_files to_lower es nothing_picked).script ≡ e.name)))
      × ((e : Entry)
          → Memᴰ e es
          → IsScript to_lower e
          → rank e.name ≤ rank (pick_files to_lower es nothing_picked).script)
unfolding has_prefix
pick_files-rank to_lower es h =
    let (chosen, over, over_es) =
      pick_files-Chosen to_lower es nothing_picked (λ q. absurd (ground (arith, q))) h in
    (chosen, over_es)

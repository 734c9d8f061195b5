-- ===== src/Scanner/Gate.antt =====
-- The stability gate of the bucket scan (backend/internal/scanner/s3scan.go).
use mathlib.Core.List.{Memᴰ}
use Prim.Native.String.{String}
use encode_system.Prelude.{
  ℕ, ◌≡◌, ◌⊎◌, inl, inr, refl, sym, ap, ◌∙◌, List, [], ◌∷◌, false, ◌||◌, Option, none, some, arith,
  ◌=s=◌, if◌then◌else◌, Bool-cases, eq_iff,
}
use encode_system.Scanner.{
  Candidate, Picked, nothing_picked, path_ext, is_first_source, is_first_mkv, pick_source,
  pick_script, is_script_ext, source_of,
}
use encode_system.Scanner.Bucket.{
  S3Entry, S3Picked, pick_object, pick_objects, is_uploading, s3_candidate, inspect_s3_episode,
}

-- no object of the folder is an .mkv
abbrev pub Raw : (String → String) → List S3Entry → Type 0
Raw to_lower es = (e : S3Entry) → Memᴰ e es → (to_lower (path_ext e.name) =s= ".mkv") ≡ false

module _ (to_lower : String → String) (folder : List S3Entry) where
  -- the source so far is an object of the folder, and the time kept is its own
  Timed : S3Picked → Type 0
  Timed p =
      (p.picked.mkv_fallback ≡ "")
      × ((p.picked.source ≡ "")
          ⊎ ((e : S3Entry) × Memᴰ e folder
              × (e.name ≡ p.picked.source)
              × (e.modified ≡ p.source_mtime)))

  pick_script-sources :
      (ext name : String) (p : Picked)
      → ((pick_script ext name p).source ≡ p.source)
        × ((pick_script ext name p).mkv_fallback ≡ p.mkv_fallback)
  unfolding pick_script
  pick_script-sources ext name p = elim (Bool-cases (is_script_ext ext)) [
    | inl e ↦ rw e (refl, refl)
    | inr e ↦ rw e (refl, refl)
  ]

  -- what a round makes of the sources when the object is no .mkv
  pick_object-sources :
      (e : S3Entry) (p : S3Picked)
      → (to_lower (path_ext e.name) =s= ".mkv") ≡ false
      → ((pick_object to_lower e p).picked.mkv_fallback ≡ p.picked.mkv_fallback)
        × (((pick_object to_lower e p).picked.source ≡ p.picked.source)
              × ((pick_object to_lower e p).source_mtime ≡ p.source_mtime)
            ⊎ ((pick_object to_lower e p).picked.source ≡ e.name)
              × ((pick_object to_lower e p).source_mtime ≡ e.modified))
  unfolding pick_object pick_source is_first_mkv
  pick_object-sources e p raw =
      let ext = to_lower (path_ext e.name) in
      let (same_s, same_f) = pick_script-sources ext e.name (pick_source ext e.name p.picked) in
      elim (Bool-cases (is_first_source ext p.picked)) [
        | inl q ↦ (same_f ∙ rw q refl, inr (same_s ∙ rw q refl, rw q refl))
        | inr q ↦
            (same_f ∙ rw q (rw raw refl), inl (same_s ∙ rw q (rw raw refl), rw q (rw raw refl)))
      ]

  pick_object-Timed :
      (e : S3Entry) (p : S3Picked)
      → Memᴰ e folder
      → (to_lower (path_ext e.name) =s= ".mkv") ≡ false
      → Timed p
      → Timed (pick_object to_lower e p)
  unfolding Timed
  pick_object-Timed e p m raw (fallback, source) =
      let (f, cases) = pick_object-sources e p raw in
      (
        f ∙ fallback,
        elim cases [
          | inl (s, t) ↦ elim source [
            | inl none_yet ↦ inl (s ∙ none_yet)
            | inr (x, mx, a, b) ↦ inr (x, mx, a ∙ sym s, b ∙ sym t)
          ]
          | inr (s, t) ↦ inr (e, m, sym s, sym t)
        ],
      )

  pick_objects-Timed :
      (es : List S3Entry) (p : S3Picked)
      → ((e : S3Entry) → Memᴰ e es → Memᴰ e folder)
      → Raw to_lower es
      → Timed p
      → Timed (pick_objects to_lower es p)
  unfolding pick_objects
  pick_objects-Timed [] p sub raw h = h
  pick_objects-Timed (e ∷ es) p sub raw h =
      pick_objects-Timed es (pick_object to_lower e p) (λ x m. sub x (Memᴰ.tail m))
        (λ x m. raw x (Memᴰ.tail m))
        (pick_object-Timed e p (sub e (Memᴰ.head refl)) (raw e (Memᴰ.head refl)) h)

  -- with no fallback, a source that is not empty is the one chosen
  source_of-source :
      (p : Picked) → p.mkv_fallback ≡ "" → (source_of p =s= "") ≡ false → source_of p ≡ p.source
  source_of-source p f h = elim (Bool-cases (p.source =s= "")) [
    | inl q ↦
        let empty : source_of p ≡ "" = rw q f in
        let blank = (eq_iff (source_of p) "").1 empty in absurd (ground (arith, h, blank))
    | inr q ↦ rw q refl
  ]

  ready-stable :
      (now age : ℕ) (dir : String) (c : Candidate) (p : S3Picked)
      → Timed p
      → (if source_of p.picked =s= "" || p.picked.script =s= ""
          then none
          else if is_uploading now age p.source_mtime
          then none
          else some (s3_candidate to_lower dir p.picked))
        ≡ some c
      → (e : S3Entry) × Memᴰ e folder
        × (e.name ≡ c.source_file)
        × (is_uploading now age e.modified ≡ false)
  unfolding Timed s3_candidate
  ready-stable now age dir c p (fallback, source) h =
      elim (Bool-cases (source_of p.picked =s= "" || p.picked.script =s= "")) [
        | inl q ↦ let no : ◌≡◌ {A = Option Candidate} none (some c) = rw q at h in absurd (cc no)
        | inr q ↦ elim (Bool-cases (is_uploading now age p.source_mtime)) [
          | inl u ↦
              let no : ◌≡◌ {A = Option Candidate} none (some c) = rw u at rw q at h in
              absurd (cc no)
          | inr u ↦
              let made : some (s3_candidate to_lower dir p.picked) ≡ some c = rw u at rw q at h in
              let same : s3_candidate to_lower dir p.picked ≡ c = cc made in
              let chosen = source_of-source p.picked fallback (ground (arith, q)) in
              elim source [
                | inl none_yet ↦
                    let blank = (eq_iff (source_of p.picked) "").1 (chosen ∙ none_yet) in
                    absurd (ground (arith, q, blank))
                | inr (x, mx, a, b) ↦ (
                  x,
                  mx,
                  a ∙ sym chosen ∙ ap (λ z. z.source_file) same,
                  ap (is_uploading now age) b ∙ u,
                )
              ]
        ]
      ]

  -- Of a folder of a bucket with no .mkv file: an episode is ready only if its source is an object of the
  -- folder that is not too fresh for the stability gate.
  pub inspect_s3-stable :
      (now age : ℕ) (dir : String) (c : Candidate)
      → Raw to_lower folder
      → inspect_s3_episode to_lower now age dir folder ≡ some c
      → (e : S3Entry) × Memᴰ e folder
        × (e.name ≡ c.source_file)
        × (is_uploading now age e.modified ≡ false)
  unfolding inspect_s3_episode Timed
  inspect_s3-stable now age dir c raw h =
      let start : S3Picked = record { picked = nothing_picked; source_mtime = none } in
      ready-stable now age dir c (pick_objects to_lower folder start)
        (pick_objects-Timed folder start (λ e m. m) raw (refl, inl refl)) h

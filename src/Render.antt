-- ===== src/Render.antt =====
-- The renderer of job scripts (backend/internal/flow/render.go), for any dialect of the interface of
-- dialect.go. The script is the list of the texts that are written to the strings.Builder.
pub mod Functions
pub mod Texts
pub mod Dialects
pub mod Bash
mod Examples
use Prim.Native.String.{String, ◌++◌ as ◌++ˢ◌}
use encode_system.Prelude.{
  ℕ, suc, ◌+◌, List, [], ◌∷◌, ◌++◌, Bool, true, false, not, ◌&&◌, ◌||◌, Option, none, some, ◌=s=◌,
  if◌then◌else◌,
}
use encode_system.Prelude.Results.{Result, ok, err, ◌>>=◌, ◌>>◌, guard, or_err}

pub record Step : Type 0 where
  pub step_type : String
  pub params : List (String × String)

pub record StepTemplate : Type 0 where
  pub key : String
  pub label : String
  -- the keys of the declared parameters
  pub params : List String
  pub powershell : String

-- A flow as the renderer reads it.
pub record Plan : Type 0 where
  pub name : String
  pub steps : List Step

pub record Vars : Type 0 where
  pub bin_dir : String
  pub scripts_dir : String
  pub release_dir : String
  pub group : String
  pub tag : String
  pub discord_webhook : String

-- the fields of a job that the renderer reads
pub record RenderJob : Type 0 where
  pub id : ℕ
  pub series : String
  pub episode : String
  pub episode_dir : String
  pub script_type : String
  pub script_file : String

-- The interface Dialect. An empty `func_name` is a source that defines no function.
pub record Dialect : Type 0 where
  pub safe_ident : String → String
  pub comment : String → String
  pub preamble : RenderJob → Plan → Vars → String
  pub job_context : RenderJob → Vars → String → String → String
  pub step_call : ℕ → StepTemplate → Step → String → String → String
  pub func_name : String → String
  pub step_body : StepTemplate → Option String
  pub job_done : String

pub data RenderError : Type 0 where
  no_steps bad_job unknown_template bad_body no_function same_function unsafe_type : RenderError

-- a step with its template and its body in the dialect
pub record Linked : Type 0 where
  pub step : Step
  pub template : StepTemplate
  pub body : String

abbrev pub is_key : String → List String → Bool
is_key k [] = false
is_key k (j ∷ js) = k =s= j || is_key k js

-- the bodies, one for each key; `emitted` is the map of the keys so far
unfoldable pub emit_bodies : List String → List Linked → List Linked
emit_bodies emitted [] = []
emit_bodies emitted (l ∷ ls) =
    let later = emit_bodies (l.template.key ∷ emitted) ls in
    if is_key l.template.key emitted then emit_bodies emitted ls else l ∷ later

-- the key that owns a function, in the map `invoked`
unfoldable pub owner : String → List (String × String) → Option String
owner fn [] = none
owner fn ((f, k) ∷ rest) = if f =s= fn then some k else owner fn rest

-- `owner, dup := invoked[fn]; dup && owner != t.Key`
abbrev pub owned_by_other : String → Option String → Bool
owned_by_other key none = false
owned_by_other key (some k) = not (k =s= key)

abbrev has_steps : List Step → Bool
has_steps [] = false
has_steps (st ∷ sts) = true

-- the name of the filter script
abbrev pub script_name : RenderJob → String
script_name j = if j.script_file =s= "" then "1080." ++ˢ j.script_type else j.script_file

-- RenderDialect, of a resolver and a dialect
module _ (resolve : String → Option StepTemplate) (d : Dialect) where
  unfoldable pub link_step : Step → Result RenderError Linked
  link_step st = do
    t ← or_err unknown_template (resolve st.step_type)
    body ← or_err bad_body (d.step_body t)
    guard (not (d.func_name body =s= "")) no_function
    ok (record { step = st; template = t; body = body })

  unfoldable pub link_steps : List Step → Result RenderError (List Linked)
  unfolding link_step
  link_steps [] = ok []
  link_steps (st ∷ sts) = do l ← link_step st; ls ← link_steps sts; ok (l ∷ ls)

  unfoldable pub body_text : Linked → String
  body_text l =
      "\n# Step template: "
      ++ˢ d.comment l.template.key
      ++ˢ " ("
      ++ˢ d.comment l.template.label
      ++ˢ ")\n"
      ++ˢ l.body
      ++ˢ "\n"

  unfoldable pub emit_calls :
      ℕ → List (String × String) → List Linked → Result RenderError (List String)
  unfolding owner
  emit_calls i invoked [] = ok []
  emit_calls i invoked (l ∷ ls) = do
    guard (not (owned_by_other l.template.key (owner (d.func_name l.body) invoked))) same_function
    guard (not (d.safe_ident l.step.step_type =s= "")) unsafe_type
    rest ← emit_calls (suc i) ((d.func_name l.body, l.template.key) ∷ invoked) ls
    ok (d.step_call i l.template l.step (d.safe_ident l.step.step_type) (d.func_name l.body) ∷ rest)

  abbrev body_texts : List Linked → List String
  body_texts [] = []
  body_texts (l ∷ ls) = body_text l ∷ body_texts ls

  abbrev pub script_texts :
      (String → String) → Plan → RenderJob → Vars → List Linked → List String → List String
  script_texts episode_number f j v ls calls =
      d.preamble j f v
        ∷ d.job_context j v (if j.episode =s= "" then episode_number j.episode_dir else j.episode)
            (script_name j)
        ∷ "# --- Step implementations (linked from step templates) ---\n"
        ∷ body_texts (emit_bodies [] ls)
      ++ "\n# --- Pipeline execution ---\n" ∷ calls
      ++ ("\n" ++ˢ d.job_done ++ˢ "\n") ∷ []

  unfoldable pub render_dialect :
      (String → String) → Plan → RenderJob → Vars → Result RenderError (List String)
  unfolding link_steps emit_calls emit_bodies body_text
  render_dialect episode_number f j v = do
    guard (has_steps f.steps) no_steps
    guard (not (j.series =s= "" || j.episode_dir =s= "")) bad_job
    ls ← link_steps f.steps
    calls ← emit_calls 0 [] ls
    ok (script_texts episode_number f j v ls calls)

-- ValidateForRender; `ps_func_name` is the regular expression of PowerShell, empty if it has no match
unfoldable pub validate_steps :
    (String → Option StepTemplate) → (String → String) → List Step → Result RenderError (Unit {0})
validate_steps resolve ps_func_name [] = ok tt
validate_steps resolve ps_func_name (st ∷ sts) = do
  t ← or_err unknown_template (resolve st.step_type)
  guard (not (ps_func_name t.powershell =s= "")) no_function
  validate_steps resolve ps_func_name sts

unfoldable pub validate_for_render :
    (String → Option StepTemplate) → (String → String) → Plan → Result RenderError (Unit {0})
unfolding validate_steps
validate_for_render resolve ps_func_name f = do
  guard (has_steps f.steps) no_steps
  validate_steps resolve ps_func_name f.steps

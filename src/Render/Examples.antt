-- ===== src/Render/Examples.antt =====
-- A flow of two steps in PowerShell.
use mathlib.Core.List.{Memᴰ}
use Prim.Native.String.{String}
use encode_system.Prelude.{◌≡◌, refl, List, [], ◌∷◌, Option, none, some, ◌=s=◌, if◌then◌else◌}
use encode_system.Prelude.Results.{Result, ok, err}
use encode_system.Render.{
  Step, StepTemplate, Plan, Vars, RenderJob, Dialect, RenderError, same_function, Linked,
  render_dialect, validate_for_render,
}
use encode_system.Render.Dialects.{power_shell_dialect}
use encode_system.Render.Texts.{decimal, digits, bash_quote_text}
use encode_system.Render.Functions.{LinkedFrom, render-functions}

abbrev template : String → String → StepTemplate
template key source = record { key = key; label = "L"; params = []; powershell = source }

abbrev resolve : String → Option StepTemplate
resolve key =
    if key =s= "audio"
    then some (template "audio" "A")
    else if key =s= "mux"
    then some (template "mux" "M")
    else if key =s= "remux"
    then some (template "remux" "M")
    else none

abbrev step : String → Step
step key = record { step_type = key; params = [] }

abbrev dialect : Dialect
dialect = power_shell_dialect (λ s. s) "" (λ s. s)

abbrev plan : Plan
plan = record { name = "f"; steps = step "audio" ∷ step "mux" ∷ step "audio" ∷ [] }

abbrev clash : Plan
clash = record { name = "f"; steps = step "mux" ∷ step "remux" ∷ [] }

abbrev job : RenderJob
job = record {
  id = 12;
  series = "Show";
  episode = "01";
  episode_dir = "Show/Ep 01";
  script_type = "vpy";
  script_file = "";
}

abbrev vars : Vars
vars = record {
  bin_dir = "b";
  scripts_dir = "s";
  release_dir = "r";
  group = "g";
  tag = "t";
  discord_webhook = "";
}

decimal_test : decimal 1205 ≡ "1205"
unfolding digits
decimal_test = refl

quote_test : bash_quote_text "it's" ≡ "'it'\\''s'"
unfolding bash_quote_text
quote_test = refl

-- what validates need not render: two templates define the same function
clash_validates_test : validate_for_render resolve (λ s. s) clash ≡ ok tt
unfolding validate_for_render
clash_validates_test = refl

clash_refused_test : render_dialect resolve dialect (λ s. s) clash job vars ≡ err same_function
unfolding render_dialect power_shell_dialect
clash_refused_test = refl

abbrev text_list : Result RenderError (List String) → List String
text_list (ok texts) = texts
text_list (err e) = []

abbrev plan_texts : List String
plan_texts = text_list (render_dialect resolve dialect (λ s. s) plan job vars)

plan_renders : render_dialect resolve dialect (λ s. s) plan job vars ≡ ok plan_texts
unfolding render_dialect power_shell_dialect
plan_renders = refl

render-functions_example :
    (l : Linked) × (m : Linked) × LinkedFrom resolve dialect (step "audio") l
    × LinkedFrom resolve dialect (step "mux") m
    × (dialect.func_name l.body ≡ dialect.func_name m.body → l.template.key ≡ m.template.key)
render-functions_example =
    render-functions resolve dialect (λ s. s) plan job vars plan_texts (step "audio") (step "mux")
      plan_renders (Memᴰ.head refl) (Memᴰ.tail (Memᴰ.head refl))

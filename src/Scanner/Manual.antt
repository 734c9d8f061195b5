-- ===== src/Scanner/Manual.antt =====
-- A job made by hand: handleCreateJob and resolveFlow of backend/internal/api/handlers.go.
use encode_system.Prelude.{ℕ, String, not, ◌||◌, Option, none, some, ltb, ◌=s=◌, if◌then◌else◌}
use encode_system.Prelude.Results.{Result, ok, ◌>>=◌, ◌>>◌, guard, or_err}
use encode_system.Model.{Flow, Series}
use encode_system.Jobs.{Store, get_flow, create_job}
use encode_system.Scanner.Loop.{
  Cycle, series_by_name, default_flow, flow_by_name, or_else, episode_number, requested_job,
}

pub record CreateRequest : Type 0 where
  pub series : String
  pub episode_dir : String
  pub script_type : String
  pub script_file : String
  pub flow_id : ℕ

pub data CreateError : Type 0 where
  required bad_script_type flow_not_found : CreateError

-- the flow that the series selects
abbrev pub selected_flow : Option Series → Store → Option Flow
selected_flow none s = none
selected_flow (some sr) s = if ltb 0 sr.flow_id then get_flow sr.flow_id s else none

unfoldable pub resolve_flow : ℕ → String → String → Store → Option Flow
unfolding get_flow series_by_name default_flow flow_by_name
resolve_flow id series default_name s =
    if ltb 0 id
    then get_flow id s
    else or_else (if series =s= "" then none else selected_flow (series_by_name series s) s)
        (or_else (default_flow s) (flow_by_name default_name s))

-- the store and the id of the new job
unfoldable pub handle_create_job : Cycle → CreateRequest → Store → Result CreateError (Store × ℕ)
unfolding resolve_flow episode_number create_job
handle_create_job cy req s = do
  guard (not (req.series =s= "" || req.episode_dir =s= "")) required
  guard (req.script_type =s= "avs" || req.script_type =s= "vpy") bad_script_type
  fl ← or_err flow_not_found (resolve_flow req.flow_id req.series cy.default_flow_name s)
  ok (
      create_job cy.now
        (requested_job req.series (episode_number cy.episode_re req.episode_dir) req.episode_dir
          req.script_type req.script_file fl.id)
        s)

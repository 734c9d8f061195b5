-- ===== src/Render/Dialects.antt =====
-- The PowerShell dialect and the texts of both (backend/internal/flow/dialect.go, dialect_bash.go).
-- strings.ToLower and the regular expressions are parameters.
use Prim.Native.String.{String, ◌++◌ as ◌++ˢ◌}
use encode_system.Prelude.{ℕ, ◌+◌, some}
use encode_system.Render.{Step, StepTemplate, Plan, Vars, RenderJob, Dialect}
use encode_system.Render.Texts.{
  ps_quote_text, strip_newlines, safe_ident_alpha, digits, decimal, params_literal, bash_params,
}

abbrev pub output_name : String → String → String → String
output_name series episode tag = series ++ˢ " - " ++ˢ episode ++ˢ " [" ++ˢ tag ++ˢ "].mkv"

abbrev pub release_folder_name : String → String → String → String
release_folder_name group series tag =
    "[" ++ˢ group ++ˢ "] " ++ˢ series ++ˢ " - Raws [" ++ˢ tag ++ˢ "]"

-- the constant DefaultX265Args is the argument `x265`
module _ (x265 : String) where
  unfoldable pub ps_job_context : RenderJob → Vars → String → String → String
  unfolding ps_quote_text
  ps_job_context j v episode script =
      "# --- Job context (shared by every step) ---\n"
      ++ˢ "$BinDir     = "
      ++ˢ ps_quote_text v.bin_dir
      ++ˢ "\n"
      ++ˢ "$ScriptsDir = "
      ++ˢ ps_quote_text v.scripts_dir
      ++ˢ "\n"
      ++ˢ "$ReleaseDir = "
      ++ˢ ps_quote_text v.release_dir
      ++ˢ "\n"
      ++ˢ "$Series     = "
      ++ˢ ps_quote_text j.series
      ++ˢ "\n"
      ++ˢ "$Episode    = "
      ++ˢ ps_quote_text episode
      ++ˢ "\n"
      ++ˢ "$EpisodeDir = Join-Path $ScriptsDir "
      ++ˢ ps_quote_text j.episode_dir
      ++ˢ "\n"
      ++ˢ "$ScriptFile = Join-Path $EpisodeDir "
      ++ˢ ps_quote_text script
      ++ˢ "\n"
      ++ˢ "$HevcFile   = Join-Path $EpisodeDir "
      ++ˢ ps_quote_text "1080.hevc"
      ++ˢ "\n"
      ++ˢ "$AudioFile  = Join-Path $EpisodeDir "
      ++ˢ ps_quote_text "audio.wav"
      ++ˢ "\n"
      ++ˢ "$OutputName = "
      ++ˢ ps_quote_text (output_name j.series episode v.tag)
      ++ˢ "\n"
      ++ˢ "$ReleaseFolder = "
      ++ˢ ps_quote_text (release_folder_name v.group j.series v.tag)
      ++ˢ "\n"
      ++ˢ "$DefaultX265Args = "
      ++ˢ ps_quote_text x265
      ++ˢ "\n\n"
      ++ˢ "$Job = [pscustomobject]@{\n"
      ++ˢ "    Series = $Series; Episode = $Episode; EpisodeDir = $EpisodeDir\n"
      ++ˢ "    ScriptFile = $ScriptFile; BinDir = $BinDir; ScriptsDir = $ScriptsDir\n"
      ++ˢ "    ReleaseDir = $ReleaseDir; Group = "
      ++ˢ ps_quote_text v.group
      ++ˢ "; Tag = "
      ++ˢ ps_quote_text v.tag
      ++ˢ "\n"
      ++ˢ "    OutputName = $OutputName; ReleaseFolder = $ReleaseFolder\n"
      ++ˢ "    HevcFile = $HevcFile; AudioFile = $AudioFile\n"
      ++ˢ "    DiscordWebhook = "
      ++ˢ ps_quote_text v.discord_webhook
      ++ˢ "\n"
      ++ˢ "    DefaultX265Args = $DefaultX265Args\n"
      ++ˢ "}\n\n"

unfoldable pub ps_preamble : RenderJob → Plan → Vars → String
unfolding digits strip_newlines
ps_preamble j f v =
    "# Generated by encode-system controller - job "
    ++ˢ decimal j.id
    ++ˢ ", flow "
    ++ˢ strip_newlines f.name
    ++ˢ "\n"
    ++ˢ "param([Parameter(Mandatory=$true)][string]$LibPath)\n"
    ++ˢ "Set-StrictMode -Version Latest\n"
    ++ˢ "$ErrorActionPreference = 'Stop'\n"
    ++ˢ ". $LibPath\n\n"

unfoldable pub ps_step_call : (String → String) → ℕ → StepTemplate → Step → String → String → String
unfolding digits strip_newlines params_literal
ps_step_call to_lower i t st safe_type fn =
    "\n# --- Step "
    ++ˢ decimal (i + 1)
    ++ˢ ": "
    ++ˢ strip_newlines t.key
    ++ˢ " ---\n"
    ++ˢ "Write-Output \"ENCODE_STEP "
    ++ˢ safe_type
    ++ˢ " start\"\n"
    ++ˢ "try {\n"
    ++ˢ "    $stepParams = [pscustomobject]@{"
    ++ˢ params_literal to_lower st t
    ++ˢ "}\n"
    ++ˢ "    "
    ++ˢ fn
    ++ˢ " -Job $Job -Params $stepParams\n"
    ++ˢ "} catch {\n"
    ++ˢ "    Write-Output \"ENCODE_STEP_FAILED "
    ++ˢ safe_type
    ++ˢ " $($_.Exception.Message)\"\n"
    ++ˢ "    exit 1\n}\n"

-- PowerShellDialect: a body is the template's source as it stands
unfoldable pub power_shell_dialect : (String → String) → String → (String → String) → Dialect
unfolding ps_preamble ps_job_context ps_step_call safe_ident_alpha strip_newlines
power_shell_dialect to_lower x265 ps_func_name = record {
  safe_ident = safe_ident_alpha to_lower;
  comment = strip_newlines;
  preamble = ps_preamble;
  job_context = ps_job_context x265;
  step_call = ps_step_call to_lower;
  func_name = ps_func_name;
  step_body = λ t. some t.powershell;
  job_done = "Write-Output \"ENCODE_JOB_DONE\"";
}

unfoldable pub bash_step_call :
    (String → String) → ℕ → StepTemplate → Step → String → String → String
unfolding digits strip_newlines bash_params
bash_step_call to_lower i t st safe_type fn =
    "\n# --- Step "
    ++ˢ decimal (i + 1)
    ++ˢ ": "
    ++ˢ strip_newlines t.key
    ++ˢ " ---\n"
    ++ˢ "echo 'ENCODE_STEP "
    ++ˢ safe_type
    ++ˢ " start'\n"
    ++ˢ "trap 'echo \"ENCODE_STEP_FAILED "
    ++ˢ safe_type
    ++ˢ " $LINENO\"; exit 1' ERR\n"
    ++ˢ "{\n"
    ++ˢ bash_params to_lower st.params t.params
    ++ˢ fn
    ++ˢ "\n"
    ++ˢ "} || { echo \"ENCODE_STEP_FAILED "
    ++ˢ safe_type
    ++ˢ " $LINENO\"; exit 1; }\n"
    ++ˢ "trap - ERR\n"

-- the constant findSourceFileBash is the argument `helper`
unfoldable pub bash_preamble : String → RenderJob → Plan → Vars → String
unfolding digits strip_newlines
bash_preamble helper j f v =
    "#!/usr/bin/env bash\n"
    ++ˢ "set -euo pipefail\n\n"
    ++ˢ "# Generated by encode-system controller - job "
    ++ˢ decimal j.id
    ++ˢ ", flow "
    ++ˢ strip_newlines f.name
    ++ˢ "\n"
    ++ˢ "\n"
    ++ˢ helper
    ++ˢ "\n\n"

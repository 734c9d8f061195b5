-- ===== src/Render/Bash.antt =====
-- The bash dialect (backend/internal/flow/dialect_bash.go). The body of a template and the name of its
-- function, which regular expressions and the built-in bash templates decide, are parameters.
use Prim.Native.Char.{code}
use Prim.Native.String.{String, ◌++◌ as ◌++ˢ◌}
use encode_system.Prelude.{Option, ◌==◌, ◌&&◌, ◌=s=◌, if◌then◌else◌}
use encode_system.Render.{StepTemplate, Vars, RenderJob, Dialect}
use encode_system.Render.Texts.{bash_quote_text, strip_newlines, safe_ident_alpha}
use encode_system.Render.Dialects.{bash_step_call, bash_preamble, output_name, release_folder_name}

-- strings.TrimRight(s, "/")
unfoldable pub trim_slashes : String → String
trim_slashes String.[] = ""
trim_slashes (String.◌∷◌ c s) =
    let rest = trim_slashes s in if rest =s= "" && code c == 47 then "" else String.◌∷◌ c rest

unfoldable pub bash_job_context : String → RenderJob → Vars → String → String → String
unfolding bash_quote_text trim_slashes
bash_job_context x265 j v episode script =
    let dir = trim_slashes v.scripts_dir ++ˢ "/" ++ˢ j.episode_dir in
    "# --- Job context (shared by every step) ---\n"
    ++ˢ "BinDir="
    ++ˢ bash_quote_text v.bin_dir
    ++ˢ "\n"
    ++ˢ "ScriptsDir="
    ++ˢ bash_quote_text v.scripts_dir
    ++ˢ "\n"
    ++ˢ "ReleaseDir="
    ++ˢ bash_quote_text v.release_dir
    ++ˢ "\n"
    ++ˢ "Series="
    ++ˢ bash_quote_text j.series
    ++ˢ "\n"
    ++ˢ "Episode="
    ++ˢ bash_quote_text episode
    ++ˢ "\n"
    ++ˢ "EpisodeDir="
    ++ˢ bash_quote_text dir
    ++ˢ "\n"
    ++ˢ "ScriptFile="
    ++ˢ bash_quote_text (dir ++ˢ "/" ++ˢ script)
    ++ˢ "\n"
    ++ˢ "HevcFile="
    ++ˢ bash_quote_text (dir ++ˢ "/" ++ˢ "1080.hevc")
    ++ˢ "\n"
    ++ˢ "AudioFile="
    ++ˢ bash_quote_text (dir ++ˢ "/" ++ˢ "audio.wav")
    ++ˢ "\n"
    ++ˢ "OutputName="
    ++ˢ bash_quote_text (output_name j.series episode v.tag)
    ++ˢ "\n"
    ++ˢ "ReleaseFolder="
    ++ˢ bash_quote_text (release_folder_name v.group j.series v.tag)
    ++ˢ "\n"
    ++ˢ "DefaultX265Args="
    ++ˢ bash_quote_text x265
    ++ˢ "\n"
    ++ˢ "Group="
    ++ˢ bash_quote_text v.group
    ++ˢ "\n"
    ++ˢ "Tag="
    ++ˢ bash_quote_text v.tag
    ++ˢ "\n"
    ++ˢ "DiscordWebhook="
    ++ˢ bash_quote_text v.discord_webhook
    ++ˢ "\n\n"

unfoldable pub bash_dialect :
    (String → String)
    → String
    → String
    → (String → String)
    → (StepTemplate → Option String)
    → Dialect
unfolding safe_ident_alpha strip_newlines bash_preamble bash_job_context bash_step_call
bash_dialect to_lower x265 helper func_name step_body = record {
  safe_ident = safe_ident_alpha to_lower;
  comment = strip_newlines;
  preamble = bash_preamble helper;
  job_context = bash_job_context x265;
  step_call = bash_step_call to_lower;
  func_name = func_name;
  step_body = step_body;
  job_done = "echo 'ENCODE_JOB_DONE'";
}

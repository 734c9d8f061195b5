-- ===== src/Notify.antt =====
-- The alerts to the chat (backend/internal/notify: notify.go and digest.go) and the digest's tick
-- (flushDigestTick of backend/internal/api/server.go). A text that is measured is the list of its bytes;
-- the texts of the lines and the HTTP request are left out.
pub mod Content
pub mod Batches
mod Examples
use encode_system.Prelude.{
  ℕ, zero, suc, ◌+◌, ◌-◌, String, List, [], ◌∷◌, ◌++◌, Bool, true, false, Option, none, some, ◌==◌,
  ltb, leb, ◌=s=◌, if◌then◌else◌, length,
}
use encode_system.Model.{JobStatus}
use encode_system.Jobs.{is_done}

-- discordCap, digestMaxLines
abbrev pub discord_cap : ℕ
discord_cap = 2000

abbrev pub digest_max_lines : ℕ
digest_max_lines = 20

-- … in UTF-8
abbrev pub ellipsis : List ℕ
ellipsis = 226 ∷ 128 ∷ 166 ∷ []

abbrev pub newline_byte : ℕ
newline_byte = 10

-- strings.ReplaceAll(s, "\n", " ")
unfoldable pub one_line : List ℕ → List ℕ
one_line [] = []
one_line (c ∷ s) = (if c == newline_byte then 32 else c) ∷ one_line s

-- s[:n] of a text that is not shorter
abbrev pub take : {A : Type 0} → ℕ → List A → List A
take zero s = []
take (suc n) [] = []
take (suc n) (c ∷ s) = c ∷ take n s

abbrev pub cut : List ℕ → ℕ → List ℕ
cut s n = if leb (length s) n then s else take n s ++ ellipsis

unfoldable pub truncate : List ℕ → ℕ → List ℕ
unfolding one_line
truncate s n = cut (one_line s) n

-- the cap once more over the body with its link
abbrev pub recapped : List ℕ → List ℕ
recapped content =
    if ltb discord_cap (length content) then truncate content discord_cap else content

-- What JobFinished posts for a body and the link of the job, which is empty without a controller URL;
-- `none` is a slice out of range.
unfoldable pub job_finished_content : List ℕ → List ℕ → Option (List ℕ)
job_finished_content body [] = some (truncate body discord_cap)
job_finished_content body (c ∷ link) =
    if ltb discord_cap (length (c ∷ link) + 1)
    then none
    else some
        (recapped (truncate body (discord_cap - length (c ∷ link) - 1) ++ newline_byte ∷ c ∷ link))

pub record DigestEntry : Type 0 where
  pub job_id : ℕ
  pub series : String
  pub episode : String
  pub status : JobStatus
  pub node_name : String

-- DigestBuffer.Push
unfoldable pub push_entry : DigestEntry → List DigestEntry → List DigestEntry
push_entry e entries = entries ++ e ∷ []

-- DigestBuffer.Drain: the entries, and the buffer
abbrev pub drain : List DigestEntry → List DigestEntry × List DigestEntry
drain entries = (entries, [])

-- a digest's counts, the entries that get a line, and how many more there are
pub record Digest : Type 0 where
  pub done_count : ℕ
  pub failed_count : ℕ
  pub shown : List DigestEntry
  pub remaining : Option ℕ

unfoldable pub count_done : List DigestEntry → ℕ
count_done [] = 0
count_done (e ∷ es) = let rest = count_done es in if is_done e.status then suc rest else rest

unfoldable pub count_failed : List DigestEntry → ℕ
count_failed [] = 0
count_failed (e ∷ es) = let rest = count_failed es in if is_done e.status then rest else suc rest

-- the loop over the lines, with how many it has shown
abbrev pub line_first : DigestEntry → List DigestEntry × Option ℕ → List DigestEntry × Option ℕ
line_first e (lines, more) = (e ∷ lines, more)

unfoldable pub digest_lines : ℕ → ℕ → List DigestEntry → List DigestEntry × Option ℕ
digest_lines total count [] = ([], none)
digest_lines total count (e ∷ es) =
    let rest = digest_lines total (count + 1) es in
    if leb digest_max_lines count then ([], some (total - count)) else line_first e rest

unfoldable pub digest_of : List DigestEntry → Digest
unfolding count_done count_failed digest_lines
digest_of entries = record {
  done_count = count_done entries;
  failed_count = count_failed entries;
  shown = (digest_lines (length entries) 0 entries).0;
  remaining = (digest_lines (length entries) 0 entries).1;
}

-- what is posted of drained entries: nothing without entries or without a webhook
abbrev pub posted : Bool → List DigestEntry → Option Digest
posted muted [] = none
posted muted (e ∷ es) = if muted then none else some (digest_of (e ∷ es))

-- FlushDigest, where `muted` says that the trimmed webhook URL is empty
unfoldable pub flush_digest : Bool → List DigestEntry → List DigestEntry × Option Digest
unfolding digest_of
flush_digest muted buffer = ((drain buffer).1, posted muted (drain buffer).0)

-- flushDigestTick, with the settings' NotifyDigest
unfoldable pub flush_digest_tick : Bool → Bool → List DigestEntry → List DigestEntry × Option Digest
unfolding flush_digest
flush_digest_tick notify_digest muted buffer =
    if notify_digest then flush_digest muted buffer else (buffer, none)

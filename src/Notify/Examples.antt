-- ===== src/Notify/Examples.antt =====
-- A digest of two outcomes, and a long alert.
use encode_system.Prelude.{
  ℕ, zero, suc, ◌+◌, ◌≡◌, ◌≤◌, ◌<◌, ◌⊎◌, arith, List, [], ◌∷◌, ◌++◌, true, false, some,
}
use encode_system.Model.{JobStatus, done, failed}
use encode_system.Notify.{
  DigestEntry, job_finished_content, discord_cap, one_line, newline_byte, take, ellipsis,
}
use encode_system.Notify.Content.{cut_body, job_finished_content-linked}
use encode_system.Notify.Batches.{pushed, ticked, DigestEvent}

abbrev entry : JobStatus → DigestEntry
entry st = record { job_id = 1; series = "A"; episode = "01"; status = st; node_name = "n1" }

abbrev events : List DigestEvent
events = pushed (entry done) ∷ ticked false ∷ pushed (entry failed) ∷ ticked true ∷ []

abbrev repeat : ℕ → List ℕ
repeat zero = []
repeat (suc n) = 97 ∷ repeat n

-- 1998 bytes do not leave room for a link of four and the line break
job_finished_content-linked_example :
    ((1998 + 4 + 1 ≤ discord_cap)
      × (job_finished_content (repeat 1998) (repeat 4)
          ≡ some (one_line (repeat 1998) ++ newline_byte ∷ repeat 4)))
    ⊎ ((discord_cap < 1998 + 4 + 1)
        × (job_finished_content (repeat 1998) (repeat 4)
            ≡ some
                (cut_body (repeat 1998) 1995 ++ 32 ∷ (take 1 (one_line (repeat 4)) ++ ellipsis))))
job_finished_content-linked_example =
    job_finished_content-linked (repeat 1998) (repeat 4) (omega arith) (omega arith)

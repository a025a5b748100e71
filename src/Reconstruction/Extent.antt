-- ===== src/Reconstruction/Extent.antt =====
-- Which requests of `plan_reconstruction` (crates/xetcasd/src/reconstruction.rs) are answered without
-- a plan, and which with the empty one.
use xetcas.Prelude.{ℕ, ◌≤◌, ◌<◌, ◌≡◌, ◌↔◌, Option, none, some, ok, arith}
use xetcas.Contracts.Storage.{FileRecord}
use xetcas.Reconstruction.Plan.{Metas, clamp, past_eof, empty_file, plan_reconstruction}
use xetcas.Reconstruction.Fetch.Steps.{plan-none_iff}

-- The range starts at the end of the file or past it, and is not the start of an empty file.
abbrev pub StartsPast : ℕ → Option (ℕ × ℕ) → Type 0
StartsPast total none = ⊥
StartsPast total (some (start, end)) = (total ≤ start) × (0 < start)

clamp-past_iff :
    (total : ℕ) (range : Option (ℕ × ℕ)) → (clamp total range ≡ past_eof) ↔ StartsPast total range
unfolding clamp
clamp-past_iff total none = (λ e. ground arith, λ p. absurd p)
clamp-past_iff total (some (start, end)) = ground arith

clamp-empty :
    (total : ℕ) (range : Option (ℕ × ℕ))
    → total ≡ 0
    → ¬ StartsPast total range
    → clamp total range ≡ empty_file
unfolding clamp
clamp-empty total none z h = ground arith
clamp-empty total (some (start, end)) z h = ground arith

-- The code answers `None`, which a client is told as an unsatisfiable range, exactly when the range
-- starts at the end of the file or past it and not at 0.
pub plan_reconstruction-none :
    (metas : Metas) (file : FileRecord) (range : Option (ℕ × ℕ))
    → (plan_reconstruction file range metas ≡ ok none) ↔ StartsPast file.file_length range
plan_reconstruction-none metas file range =
    let past = clamp-past_iff file.file_length range in
    let absent = plan-none_iff metas file range in
    (λ h. past.0 (absent.0 h), λ p. absent.1 (past.1 p))

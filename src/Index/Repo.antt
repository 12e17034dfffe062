-- ===== src/Index/Repo.antt =====
-- index/repo.go: the `FullIndexRepo` interface, over the states `R` of a repository and the indices `I`.
use dagstore.Shared.{ℕ, Bool, Option}
use dagstore.Error.{Error, Result}
use dagstore.ShardKey.{Key}

pub record Stat : Type 0 where
  pub exists : Bool
  pub size : ℕ

-- A method that writes returns the repository after it. What the file system answers to a repository
-- on disk is part of its state.
pub record FullIndexRepo (R I : Type 0) : Type 0 where
  pub get_full_index : R → Key → Result I
  pub add_full_index : R → Key → I → R × Option Error
  pub drop_full_index : R → Key → R × Bool × Option Error
  pub stat_full_index : R → Key → Result Stat

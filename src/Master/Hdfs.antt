-- ===== src/Master/Hdfs.antt =====
-- What src/husky-plugins/master asks of libhdfs.
use husky_kylin.Prelude.{ℕ, List, Bool, Text}

pub record FileInfo : Type 0 where
  pub is_file : Bool
  pub name : Text

-- The file system: whether the `n`th attempt from the last one connects, the entries of a path, and
-- a number for a file, where reading it can throw.
pub record Hdfs : Type 0 where
  pub connects : ℕ → Bool
  pub list_directory : Text → List FileInfo

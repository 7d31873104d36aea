-- ===== src/HashMap/Hash.antt =====
-- The range of `get_hash`.
use mimuw_pw_tasks.Prelude.{◌<◌, arith}
use mimuw_pw_tasks.CString.{CString}
use mimuw_pw_tasks.HashMap.{get_hash, n_buckets}

pub get_hash-lt : (key : CString) → get_hash key < n_buckets
unfolding get_hash
get_hash-lt key = omega arith

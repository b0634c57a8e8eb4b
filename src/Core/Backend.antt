-- ===== src/Core/Backend.antt =====
-- crates/ctxfs-core/src/backend.rs: the backends, and their names.
use ctxfs.Common.{
  ◌≡◌, Result, ok, err, ◌++◌, Text, text, Text-discrete, if◌then◌else◌, holds, arith,
}
use ctxfs.Core.Error.{CtxfsError, invalid_source}

pub data Backend : Type 0 where
  fskit nfs : Backend

-- `Display for Backend`
unfoldable pub backend_name : Backend → Text
backend_name nfs = text "nfs"
backend_name fskit = text "fskit"

-- `FromStr for Backend`
unfoldable pub parse_backend : Text → Result Backend CtxfsError
parse_backend s =
    if holds (Text-discrete s (text "nfs"))
    then ok nfs
    else if holds (Text-discrete s (text "fskit"))
    then ok fskit
    else err (
        invalid_source (text "unsupported backend '" ++ (s ++ text "', expected 'nfs' or 'fskit'")))

-- The name of a backend is read back as that backend.
parse_backend-backend_name : (b : Backend) → parse_backend (backend_name b) ≡ ok b
unfolding parse_backend backend_name
parse_backend-backend_name nfs = ground arith
parse_backend-backend_name fskit = ground arith

-- ===== src/Common/Keys.antt =====
-- The keys of the inode tables.
use Prim.Native.Nat.{ℕ}
use native.Mathlib.Decide.{ℕ_discrete}
use ctxfs.Common.Assoc.{Key}
use ctxfs.Common.Bytes.{Text, Text-discrete}

instance abbrev pub id_key : Key ℕ
id_key = record { eq? = ℕ_discrete }

-- The name of a child: its parent, and its name there.
abbrev pub Name : Type 0
Name = ℕ × Text

unfoldable pub Name-discrete : Discrete Name
Name-discrete = hlevel (ℕ_discrete, Text-discrete)

instance abbrev pub name_key : Key Name
name_key = record { eq? = Name-discrete }

-- ===== src/Proxy/Forward/Headers.antt =====
-- Which headers cross the proxy, and which model a body names there.
use Prim.Native.String.{◌++◌ as ◌++ₛ◌}
use squall.Common.{Bool, false, not, ◌&&◌, ◌||◌, String, List, [], ◌∷◌, str_eq, trim_space}

module _ (canonical : String → String) where
  -- Whether a name is among those, in their canonical forms.
  unfoldable pub is_among : String → List String → Bool
  is_among k [] = false
  is_among k (f ∷ fs) = str_eq (canonical f) k || is_among k fs

  -- Whether a name is among the fields of a Connection header, which may be empty.
  unfoldable pub is_field : String → List String → Bool
  unfolding trim_space
  is_field k [] = false
  is_field k (f ∷ fs) =
      (not (str_eq (trim_space f) "") && str_eq (canonical (trim_space f)) k) || is_field k fs

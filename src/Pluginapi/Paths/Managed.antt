-- ===== src/Pluginapi/Paths/Managed.antt =====
-- pkg/pluginapi/helpers.go: the paths that `EnforceManagedPath` accepts.
use hardline.Base.{nat_eq, Text, codes, Bool, not, ◌&&◌, List, ◌==◌, is_nil, all}

abbrev pub has_no_slash : Text → Bool
has_no_slash c = all (λ b. not (nat_eq b b'/')) c

-- A component that names something below its directory: one without a slash.
abbrev pub is_name : Text → Bool
is_name c = (not (is_nil c) && (not (c == codes ".") && not (c == codes ".."))) && has_no_slash c

-- ===== src/Pluginapi/Shell.antt =====
-- pkg/pluginapi/helpers.go: `ShellArg`, which quotes a text for the remote shell.
pub mod Word
pub mod Unquoting
pub mod Fuel
use hardline.Base.{Text, [], ◌∷◌, ◌++◌, if◌then◌else◌, nat_eq}

-- strings.ReplaceAll of the single quote by a quoted single quote.
unfoldable pub escape_quotes : Text → Text
escape_quotes [] = []
escape_quotes (c ∷ s) =
    let rest = escape_quotes s in
    if nat_eq c 39 then 39 ∷ (34 ∷ (39 ∷ (34 ∷ (39 ∷ rest)))) else c ∷ rest

unfoldable pub shell_arg : Text → Text
unfolding escape_quotes
shell_arg s = 39 ∷ (escape_quotes s ++ (39 ∷ []))

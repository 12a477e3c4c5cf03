-- ===== src/Output/Json.antt =====
-- output/json.rs: `print`.
use ru_ssl.Prelude.{◌++◌, [], ◌∷◌}
use ru_ssl.Text.{Str}
use ru_ssl.Error.{Result, ok, ◌>>=◌}
use ru_ssl.Scan.{ScanResult}

-- The text that is printed, with the line end of `println!`.
unfoldable pub print : (ScanResult → Result Str) → ScanResult → Result Str
print to_string_pretty result = do text ← to_string_pretty result; ok (text ++ (b'\n' ∷ []))

-- ===== src/M4/Parser/Accepts.antt =====
-- Which scripts the two parsers accept, and what the accepted ones parse to.
use drivechain_litwindow.Prelude.{
  ◌%◌, ◌-◌, ◌≤◌, ◌≡◌, ◌↔◌, true, Bytes, [], length, get_or, drop, arith, ok, length-drop, is_ok,
}
use drivechain_litwindow.M4.Message.{M4Message}
use drivechain_litwindow.M4.Parser.{
  parse_m4_bytes, parse_m3_bytes, is_m4_commitment, is_m3_commitment, parse_version01,
  parse_version02,
}

-- What `ParseM4Bytes` asks of a script beyond the commitment header.
abbrev pub IsSupported : Bytes → Type 0
IsSupported script = (get_or script 5 0 ≤ 3) × (get_or script 5 0 ≡ 2 → (length script - 6) % 2 ≡ 0)

parse_m4_sound :
    (script : Bytes)
    → is_ok (parse_m4_bytes script) ≡ true
    → (is_m4_commitment script ≡ true) × IsSupported script
unfolding parse_m4_bytes is_m4_commitment parse_version02
parse_m4_sound script h = ground (arith, length-drop 6 script)

parse_m4_complete :
    (script : Bytes)
    → is_m4_commitment script ≡ true
    → IsSupported script
    → is_ok (parse_m4_bytes script) ≡ true
unfolding parse_m4_bytes is_m4_commitment parse_version02
parse_m4_complete script h s = ground (arith, length-drop 6 script)

-- `ParseM4Bytes` returns a message exactly for the scripts that `IsM4Commitment` admits, whose version is 0 to 3, and whose vector has an even length if the version is 2.
pub parse_m4-accepts :
    (script : Bytes)
    → (is_ok (parse_m4_bytes script) ≡ true)
      ↔ ((is_m4_commitment script ≡ true) × IsSupported script)
parse_m4-accepts script = (parse_m4_sound script, λ h. parse_m4_complete script h.0 h.1)

-- What a parsed message holds: its votes follow from the version and the vector alone.
pub parse_m4-fields :
    (script : Bytes) {m : M4Message}
    → parse_m4_bytes script ≡ ok m
    → (m.version ≡ get_or script 5 0)
      × (m.raw_bytes ≡ drop 5 script)
      × (m.version ≡ 0 → m.votes ≡ [])
      × (m.version ≡ 1 → m.votes ≡ parse_version01 (drop 6 script))
      × (m.version ≡ 2 → parse_version02 (drop 6 script) ≡ ok m.votes)
      × (m.version ≡ 3 → m.votes ≡ [])
unfolding parse_m4_bytes
parse_m4-fields script h = ground arith

-- `ParseM3Bytes` returns a message exactly for the scripts that `IsM3Commitment` admits, so the engine never skips an admitted script.
pub parse_m3-accepts : (script : Bytes) → is_ok (parse_m3_bytes script) ≡ is_m3_commitment script
unfolding parse_m3_bytes is_m3_commitment
parse_m3-accepts script = ground arith

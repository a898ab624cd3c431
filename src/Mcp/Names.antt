-- ===== src/Mcp/Names.antt =====
-- Namespaced tool names, written by `catalog` and read by `dispatch`.
use ai_voice.Prelude.{true, ◌≡◌, refl, String, some, string_eq}
use ai_voice.Prelude.Text.{append, lacks, split_first, split_first-append}
use ai_voice.Prelude.Exec.{ok}
use ai_voice.Mcp.Pool.{namespaced, split_namespaced, split_in_three}

split_in_three-some :
    (t a rest b c : String)
    → split_first b'.' t ≡ some (a, rest)
    → split_first b'.' rest ≡ some (b, c)
    → split_in_three t ≡ some (a, b, c)
split_in_three-some t a rest b c h k = rw (h, k, split_in_three) refl

split_namespaced-some :
    (t b c : String) → split_in_three t ≡ some ("mcp", b, c) → split_namespaced t ≡ ok (b, c)
unfolding split_namespaced
split_namespaced-some t b c h = rw (h, split_namespaced) refl

-- A server id with no dot is read back from a namespaced name, with the tool's name, dots in it
-- included; so no tool of one such server can pass for a tool of another.
pub split_namespaced-namespaced :
    (server_id tool_name : String)
    → lacks b'.' server_id ≡ true
    → split_namespaced (namespaced server_id tool_name) ≡ ok (server_id, tool_name)
unfolding namespaced
split_namespaced-namespaced server_id tool_name h =
    let rest = append server_id (append "." tool_name) in
    let first : split_first b'.' (append "mcp." rest) ≡ some ("mcp", rest) =
      unfold split_first append in refl in
    let second : split_first b'.' rest ≡ some (server_id, tool_name) =
      unfold append in split_first-append b'.' server_id _ tool_name h refl in
    split_namespaced-some _ server_id tool_name
      (split_in_three-some _ "mcp" rest server_id tool_name first second)

-- ===== src/Tests/Keys.antt =====
-- The project key of a directory.
use claude_agent_sdk_go.Base.{◌≡◌, refl}
use claude_agent_sdk_go.Text.{rune_count}
use claude_agent_sdk_go.Sessions.ProjectKey.{
  sanitize_path, simple_hash, hash_units, hash_unit, utf16_units, digits36, char_at,
}

work_key : sanitize_path "/home/me/my_app" ≡ "-home-me-my-app"
unfolding sanitize_path rune_count
work_key = refl

-- As the CLI's JavaScript hashes "abc"
abc_hash : simple_hash "abc" ≡ "22ci"
unfolding simple_hash hash_units hash_unit utf16_units digits36 char_at
abc_hash = refl

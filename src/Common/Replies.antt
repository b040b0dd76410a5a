-- ===== src/Common/Replies.antt =====
-- What a request to another node comes to, as the code of leader_follower/leader.py and
-- leaderless/node.py tells the cases of httpx, json and pydantic apart.
use kv_replication_lab.Prelude.{ℕ}

-- The body of a response, read by `resp.json()` and `model_validate`: one whose reading raises
-- something else than a `JSONDecodeError`, as bytes that are no text, an integer of thousands of
-- digits or a deep nesting do; text that is not JSON; JSON of another shape; or what was asked for.
pub data Body {ℓ} (A : Type ℓ) : Type ℓ where
  unreadable : Body A
  not_json : Body A
  invalid : Body A
  valid : A → Body A

-- What `await client.post(...)` does: it raises an `httpx.HTTPError` or something else, or a
-- response comes back.
pub data Reply {ℓ} (A : Type ℓ) : Type ℓ where
  http_error : Reply A
  other_error : Reply A
  response : (status_code : ℕ) → Body A → Reply A

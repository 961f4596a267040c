-- ===== src/Task/Params.antt =====
-- `getParamByKey` of task/rpc.go, and the metadata text of connect/rpc.go that it reads.
use yoyichat.Base.{ℕ, ◌≡◌, refl, List, [], ◌∷◌, ◌++◌, if◌then◌else◌, arith, append_assoc, ap, ◌∙◌}
use yoyichat.Base.Bytes.{Bytes, codes, same, split, Lacks, split-Lacks, split-part}

-- the loop over the parts; only a part with exactly one `=` counts
match_pair : List Bytes → Bytes → Bytes → Bytes
match_pair (k ∷ v ∷ []) key rest = if same k key then v else rest
match_pair _ key rest = rest

find_param : Bytes → List Bytes → Bytes
unfolding match_pair
find_param key [] = []
find_param key (p ∷ ps) = match_pair (split b'=' p) key (find_param key ps)

unfoldable pub get_param_by_key : Bytes → Bytes → Bytes
unfolding find_param
get_param_by_key s key = find_param key (split b'&' s)

-- `fmt.Sprintf("serverId=%s&serverType=ws", c.ServerId)`, and with `tcp`
unfoldable pub registration : Bytes → Bytes → Bytes
registration server_id server_type =
    codes "serverId=" ++ (server_id ++ (codes "&serverType=" ++ server_type))

Lacks-append : (c : ℕ) (s t : Bytes) → Lacks c s → Lacks c t → Lacks c (s ++ t)
Lacks-append c [] t ls lt = lt
Lacks-append c (x ∷ s) t ls lt = (ls.0, Lacks-append c s t ls.1 lt)

module _ (server_id server_type : Bytes) (id_amp : Lacks b'&' server_id)
    (id_eq : Lacks b'=' server_id) (type_amp : Lacks b'&' server_type)
    (type_eq : Lacks b'=' server_type) where
  -- the two pairs that `registration` is made of
  parts :
      split b'&' (registration server_id server_type)
      ≡ (codes "serverId=" ++ server_id) ∷ (codes "serverType=" ++ server_type) ∷ []
  unfolding registration
  parts =
      let left = codes "serverId=" ++ server_id in
      let right = codes "serverType=" ++ server_type in
      rw (← append_assoc (codes "serverId=") server_id (b'&' ∷ right)) (
        split-part b'&' left right
          (Lacks-append b'&' (codes "serverId=") server_id (omega arith) id_amp)
        ∙ ap (λ ps. left ∷ ps)
            (split-Lacks b'&' right
              (Lacks-append b'&' (codes "serverType=") server_type (omega arith) type_amp)))

  id_pair : split b'=' (codes "serverId=" ++ server_id) ≡ codes "serverId" ∷ server_id ∷ []
  id_pair =
      split-part b'=' (codes "serverId") server_id (omega arith)
      ∙ ap (λ ps. codes "serverId" ∷ ps) (split-Lacks b'=' server_id id_eq)

  type_pair :
      split b'=' (codes "serverType=" ++ server_type) ≡ codes "serverType" ∷ server_type ∷ []
  type_pair =
      split-part b'=' (codes "serverType") server_type (omega arith)
      ∙ ap (λ ps. codes "serverType" ∷ ps) (split-Lacks b'=' server_type type_eq)

  -- From the text that a connect instance registers, the task layer reads back the instance's id and
  -- its type, if neither holds a `&` or a `=`.
  pub get_param_by_key-registration :
      (get_param_by_key (registration server_id server_type) (codes "serverId") ≡ server_id)
      × (get_param_by_key (registration server_id server_type) (codes "serverType") ≡ server_type)
  unfolding get_param_by_key same
  get_param_by_key-registration = (rw (parts, id_pair) refl, rw (parts, id_pair, type_pair) refl)

-- ===== src/WsNet/Url/Parts.antt =====
-- The parts of an url and of an address.
use websocket_cpp.Base.{
  ℕ, suc, ◌<◌, ◌≡◌, refl, ap, subst, ◌∙◌, List, [], ◌∷◌, ◌++◌, append_assoc, append-nil, length,
  some, arith,
}
use websocket_cpp.Utility.{strsplit, split_loop}
use websocket_cpp.Utility.Fields.{Without, split_loop-field, split_loop-last, split_loop-keeps}
use websocket_cpp.WsNet.Url.{parts}

pub parts_eq :
    (s : List ℕ) (c : ℕ) (v : List (List ℕ))
    → split_loop (suc (length s)) (c ∷ []) [] s ≡ some v
    → parts s c ≡ v
unfolding parts strsplit
parts_eq s c v e = rw (parts, e) refl

-- What follows the address in an url: nothing, or a path
abbrev pub IsPath : List ℕ → Type 0
IsPath [] = Unit
IsPath (c ∷ s) = c ≡ 47

-- The address is the next part, at the end of the url or before a path.
address_part :
    (fuel : ℕ) (v : List (List ℕ)) (addr path : List ℕ)
    → Without 47 addr
    → 0 < length addr
    → IsPath path
    → length (addr ++ path) < fuel
    → (more : List (List ℕ)) × (split_loop fuel (47 ∷ []) v (addr ++ path)
        ≡ some (v ++ (addr ∷ more)))
address_part fuel v [] path w pos p enough = absurd (omega arith)
address_part fuel v (c ∷ s) [] w pos p enough = (
  [],
  ap (split_loop fuel (47 ∷ []) v) (append-nil (c ∷ s))
      ∙ split_loop-last fuel 47 v (c ∷ s) w (omega (arith, ap length (append-nil (c ∷ s)))),
)
address_part fuel v (c ∷ s) (d ∷ path) w pos p enough =
    let here = subst (λ k. length ((c ∷ s) ++ (k ∷ path)) < fuel) p enough in
    let (f, e, enough2) = split_loop-field fuel 47 v (c ∷ s) path w here in
    let (more, e2) = split_loop-keeps f 47 (v ++ ((c ∷ s) ∷ [])) path enough2 in
    (
      more,
      ap (λ k. split_loop fuel (47 ∷ []) v ((c ∷ s) ++ (k ∷ path))) p
          ∙ e
          ∙ e2
          ∙ ap some (append_assoc v ((c ∷ s) ∷ []) more),
    )

pub parts_url :
    (scheme addr path : List ℕ)
    → Without 47 scheme
    → Without 47 addr
    → 0 < length addr
    → IsPath path
    → (more : List (List ℕ)) × (parts (scheme ++ (47 ∷ 47 ∷ (addr ++ path))) 47
        ≡ scheme ∷ [] ∷ addr ∷ more)
parts_url scheme addr path w a pos p =
    let url : List ℕ = scheme ++ (47 ∷ 47 ∷ (addr ++ path)) in
    let (f, e, enough) =
      split_loop-field (suc (length url)) 47 [] scheme (47 ∷ (addr ++ path)) w (omega arith) in
    let (g, e2, enough2) = split_loop-field f 47 (scheme ∷ []) [] (addr ++ path) tt enough in
    let (more, e3) = address_part g (scheme ∷ [] ∷ []) addr path a pos p enough2 in
    (more, parts_eq url 47 _ (e ∙ e2 ∙ e3))

-- The two parts of an address
pub parts_address :
    (host port : List ℕ)
    → Without 58 host
    → Without 58 port
    → 0 < length port
    → parts (host ++ (58 ∷ port)) 58 ≡ host ∷ port ∷ []
parts_address host [] w d pos = absurd (omega arith)
parts_address host (c ∷ s) w d pos =
    let all : List ℕ = host ++ (58 ∷ (c ∷ s)) in
    let (f, e, enough) = split_loop-field (suc (length all)) 58 [] host (c ∷ s) w (omega arith) in
    parts_eq all 58 _ (e ∙ split_loop-last f 58 (host ∷ []) (c ∷ s) d enough)

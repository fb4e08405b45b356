-- ===== src/NetServer/Ids.antt =====
-- The ids of connections.
use websocket_cpp.Base.{
  ℕ, ◌≡◌, ◌↔◌, refl, sym, ap, subst, ◌∙◌, List, [], ◌∷◌, ◌++◌, true, decimal, AllDigits-decimal,
  decimal_injective, arith,
}
use websocket_cpp.Heartbeat.{same_bytes}
use websocket_cpp.Utility.{find}
use websocket_cpp.Utility.Fields.{Without, find_field, AllDigits-Without}
use websocket_cpp.NetServer.{Peer, conn_id}

pub same_bytes_eq : (xs ys : List ℕ) → same_bytes xs ys ≡ true → xs ≡ ys
same_bytes_eq [] [] h = refl
same_bytes_eq [] (y ∷ ys) h = cc
same_bytes_eq (x ∷ xs) [] h = cc
same_bytes_eq (x ∷ xs) (y ∷ ys) h = ground (arith, same_bytes_eq xs ys)

pub same_bytes_refl : (xs : List ℕ) → same_bytes xs xs ≡ true
same_bytes_refl [] = refl
same_bytes_refl (x ∷ xs) = ground (arith, same_bytes_refl xs)

pub same_bytes_iff : (xs ys : List ℕ) → (same_bytes xs ys ≡ true) ↔ (xs ≡ ys)
same_bytes_iff xs ys =
    (same_bytes_eq xs ys, (λ e. subst (λ z. same_bytes xs z ≡ true) e (same_bytes_refl xs)))

-- Texts that hold no mark are told apart when a mark and anything follows.
fields_injective :
    (c : ℕ) (x y r s : List ℕ)
    → Without c x
    → Without c y
    → x ++ (c ∷ r) ≡ y ++ (c ∷ s)
    → (x ≡ y) × (r ≡ s)
fields_injective c x y r s w v e =
    let f = sym (find_field c x r w) ∙ ap (find (c ∷ [])) e ∙ find_field c y s v in (cc, cc)

-- Two peers whose addresses hold no "#" have the same id only if they are the same.
pub conn_id_injective :
    (p q : Peer) (i j : ℕ)
    → Without 35 p.ip
    → Without 35 q.ip
    → conn_id p i ≡ conn_id q j
    → (p.ip ≡ q.ip) × (p.port ≡ q.port) × (i ≡ j)
unfolding conn_id
conn_id_injective p q i j w v e =
    let (ip, rest) = fields_injective 35 p.ip q.ip _ _ w v e in
    let (port, index) =
      fields_injective 35 (decimal p.port) (decimal q.port) _ _
        (AllDigits-Without 35 (decimal p.port) refl (AllDigits-decimal p.port))
        (AllDigits-Without 35 (decimal q.port) refl (AllDigits-decimal q.port)) rest in
    (ip, decimal_injective p.port q.port port, decimal_injective i j index)

-- ===== src/Service/Sending.antt =====
-- What is streamed.
use proto_ip.Prelude.{List, Option, [], map, none, refl, some, ◌++◌, ◌∷◌, ◌≡◌}
use proto_ip.Golang.NetIp.{NetIp}
use proto_ip.Golang.Text.{Text}
use proto_ip.Messages.Ip.{Cidr, Ip}
use proto_ip.Messages.Local.{Interface}
use proto_ip.Service.{and_then}

-- The addresses of the interfaces, in order.
pub addresses_of : List Interface → List (Option Ip)
addresses_of [] = []
addresses_of (iface ∷ ifs) = map (λ (c : Cidr). c.ip) iface.addresses ++ addresses_of ifs

-- A stream that takes messages in order: it takes all of them, or refuses one with an error, which
-- is then the error of the whole, and takes none behind it.
pub data Sends {ℓ} {W : Type 0} {A : Type ℓ} (send : A → W → Option Text × W)
    : List A → W → Option Text → W → Type ℓ where
  done : {w : W} → Sends send [] w none w
  taken :
      {x : A} {xs : List A} {w u v : W} {e : Option Text}
      → send x w ≡ (none, u)
      → Sends send xs u e v
      → Sends send (x ∷ xs) w e v
  refused :
      {x : A} {xs : List A} {w v : W} {e : Text}
      → send x w ≡ (some e, v)
      → Sends send (x ∷ xs) w (some e) v

module _ {W : Type 0} where
  pub and_then_congr :
      (r : Option Text × W) (k l : W → Option Text × W)
      → ((w : W) → k w ≡ l w)
      → and_then r k ≡ and_then r l
  unfolding and_then
  and_then_congr (none, w) k l h = h w
  and_then_congr (some e, w) k l h = refl

  pub and_then_assoc :
      (r : Option Text × W) (k l : W → Option Text × W)
      → and_then (and_then r k) l ≡ and_then r (λ w. and_then (k w) l)
  unfolding and_then
  and_then_assoc (none, w) k l = refl
  and_then_assoc (some e, w) k l = refl

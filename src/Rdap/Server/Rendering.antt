-- ===== src/Rdap/Server/Rendering.antt =====
-- The text of a listed CIDR.
use mathlib.Core.Option.{some-injective}
use proto_ip.Prelude.{Option, [], ap, list_beq, none, refl, some, sym, ◌++◌, ◌∙◌, ◌≡◌}
use proto_ip.Golang.NetIp.{IpNet, NetIp, drop, mask_size, take, to16, to4}
use proto_ip.Golang.NetText.{NetText}
use proto_ip.Golang.Text.{Text, codes, decimal}
use proto_ip.Localip.{to_cidr, to_ip}
use proto_ip.Localip.RoundTrip.{IsNetIp, ip_from_proto-to_ip}
use proto_ip.Messages.{get}
use proto_ip.Messages.Ip.{Ip}
use proto_ip.Rdap.Client.{SubnetText, render_net_ip, subnet_prefix_len}
use proto_ip.Rdap.Server.{render_cidr}
use proto_ip.Rdap.Wire.{ip_from_proto}
use proto_ip.Localip

same_bytes : (ip : Option Ip) → ip_from_proto ip ≡ Localip.ip_from_proto ip
unfolding ip_from_proto Localip.ip_from_proto
same_bytes none = refl
same_bytes (some ip) = refl

-- An address and its 16-byte form have the same text.
pub render-to16 :
    (t : NetText) (ip full : NetIp)
    → IsNetIp ip
    → to16 ip ≡ some full
    → render_net_ip t full ≡ render_net_ip t ip
unfolding to16 render_net_ip to4 take drop list_beq
render-to16 t ip full (IsNetIp.four w) e = ap (render_net_ip t) (sym (some-injective _ _ e)) ∙ refl
render-to16 t ip full (IsNetIp.sixteen v w) e = ap (render_net_ip t) (sym (some-injective _ _ e))

pub to16-some : (ip : NetIp) → IsNetIp ip → (full : NetIp) × (to16 ip ≡ some full)
unfolding to16
to16-some ip (IsNetIp.four w) = (_, refl)
to16-some ip (IsNetIp.sixteen v w) = (_, refl)

-- The CIDR of an interface's network, put into a message and rendered, is the text of its address
-- (of four or sixteen bytes), a slash and the length of its mask.
pub render_cidr-to_cidr :
    (t : NetText) (n : SubnetText) (net : IpNet)
    → IsNetIp net.ip
    → render_cidr t n (some (to_cidr t.ip_string net))
      ≡ render_net_ip t net.ip ++ codes "/" ++ decimal (mask_size net.mask)
unfolding render_cidr to_cidr subnet_prefix_len
render_cidr-to_cidr t n net h =
    let (full, e) = to16-some net.ip h in
    let found : ip_from_proto (some (to_ip t.ip_string net.ip)) ≡ some full =
      same_bytes _ ∙ ip_from_proto-to_ip t.ip_string net.ip h ∙ e in
    ap
      (λ (o : Option NetIp).
        render_net_ip t (get [] (λ (ip : NetIp). ip) o)
        ++ codes "/"
        ++ decimal (mask_size net.mask))
      found
    ∙ ap (λ (x : Text). x ++ codes "/" ++ decimal (mask_size net.mask))
        (render-to16 t net.ip full h e)

-- ===== src/TcpClient/Cut.antt =====
-- A beginning of the server's stream: whole packets, and the beginning of one.
use game_lift.Prelude.{
  ℕ, ◌≤◌, ◌<◌, ◌≡◌, refl, sym, ap, ◌∙◌, inl, inr, Bool-cases, List, [], ◌∷◌, ◌++◌, append_assoc,
  arith, length, length-append, take, drop, take_whole, drop_whole, take-append_left,
  drop-append_left, take-append-drop, nil_of_length, ltb,
}
use game_lift.Packet.{
  decode_header, size_of_short, header_size, chat_size, ServerPacket, encode_server,
}
use game_lift.Packet.Reply.{
  IsReply, server_size, server_size-le, length-encode_server, take-encode_server,
  decode-server_header,
}
use game_lift.Server.Stream.Serve.{IsIncomplete}

abbrev pub reply_all : List ServerPacket → List ℕ
reply_all [] = []
reply_all (p ∷ ps) = encode_server p ++ reply_all ps

abbrev pub AllReply : List ServerPacket → Type 0
AllReply [] = Unit {0}
AllReply (p ∷ ps) = IsReply p × AllReply ps

-- The bytes `xs` that have arrived, of a stream of which `ys` is still to come: whole packets, and
-- an incomplete one.
pub record Cut (xs ys : List ℕ) (todo : List ServerPacket) : Type 0 where
  pub now : List ServerPacket
  pub later : List ServerPacket
  pub tail : List ℕ
  pub split : todo ≡ now ++ later
  pub whole : xs ≡ reply_all now ++ tail
  pub ahead : tail ++ ys ≡ reply_all later
  pub incomplete : IsIncomplete tail
  pub small : length tail < chat_size
  pub good_now : AllReply now
  pub good_later : AllReply later

starts_short :
    (xs ys : List ℕ) (p : ServerPacket) (rest : List ℕ)
    → xs ++ ys ≡ encode_server p ++ rest
    → length xs < server_size p
    → IsIncomplete xs
starts_short xs ys p rest e few = elim (Bool-cases (ltb (length xs) header_size)) [
  | inl short ↦ inl (ground (arith, short))
  | inr enough ↦
      let there : header_size ≤ length xs = ground (arith, enough) in
      let header =
        sym (take-append_left header_size xs ys there)
        ∙ ap (take header_size) e
        ∙ take-encode_server p rest in
      inr (
        there,
        omega (
          arith,
          ap (λ h. size_of_short (decode_header h).size) header,
          (decode-server_header p).0,
        ),
      )
]

-- The bytes behind the first packet, if it is whole.
module _ (xs ys : List ℕ) (p : ServerPacket) (rest : List ℕ) (good : IsReply p)
    (e : xs ++ ys ≡ encode_server p ++ rest) (enough : server_size p ≤ length xs) where
  first_whole : xs ≡ encode_server p ++ drop (server_size p) xs
  first_whole =
      sym (take-append-drop (server_size p) xs)
      ∙ ap (λ zs. zs ++ drop (server_size p) xs)
          (sym (take-append_left (server_size p) xs ys enough)
            ∙ ap (take (server_size p)) e
            ∙ take_whole (server_size p) (encode_server p) rest (length-encode_server p good))

  behind_first : drop (server_size p) xs ++ ys ≡ rest
  behind_first =
      sym (drop-append_left (server_size p) xs ys enough)
      ∙ ap (drop (server_size p)) e
      ∙ drop_whole (server_size p) (encode_server p) rest (length-encode_server p good)

-- Every beginning of a stream of packets is cut like that.
pub cut :
    (xs ys : List ℕ) (todo : List ServerPacket)
    → AllReply todo
    → xs ++ ys ≡ reply_all todo
    → Cut xs ys todo
cut xs ys [] good e =
    let none_there : xs ≡ [] = nil_of_length xs (omega (arith, ap length e, length-append xs ys)) in
    record {
      now = [];
      later = [];
      tail = xs;
      split = refl;
      whole = refl;
      ahead = e;
      incomplete = inl (omega (arith, ap length none_there));
      small = omega (arith, ap length none_there);
      good_now = tt;
      good_later = tt;
    }
cut xs ys (p ∷ ps) good e = elim (Bool-cases (ltb (length xs) (server_size p))) [
  | inl short ↦
      let few : length xs < server_size p = ground (arith, short) in
      record {
        now = [];
        later = p ∷ ps;
        tail = xs;
        split = refl;
        whole = refl;
        ahead = e;
        incomplete = starts_short xs ys p (reply_all ps) e few;
        small = omega (arith, few, server_size-le p);
        good_now = tt;
        good_later = good;
      }
  | inr enough ↦
      let there : server_size p ≤ length xs = ground (arith, enough) in
      let c =
        cut (drop (server_size p) xs) ys ps good.1
          (behind_first xs ys p (reply_all ps) good.0 e there) in
      record {
        now = p ∷ c.now;
        later = c.later;
        tail = c.tail;
        split = ap (◌∷◌ p) c.split;
        whole =
            first_whole xs ys p (reply_all ps) good.0 e there
            ∙ ap (λ zs. encode_server p ++ zs) c.whole
            ∙ sym (append_assoc (encode_server p) (reply_all c.now) c.tail);
        ahead = c.ahead;
        incomplete = c.incomplete;
        small = c.small;
        good_now = (good.0, c.good_now);
        good_later = c.good_later;
      }
]

-- ===== src/Printer/Weave/Steps.antt =====
-- What the steps of the printer add to the output.
use Prim.Native.String.{◌++◌}
use mathlib.Core.List.{
  ◌++◌ as append, append_assoc as list_append_assoc, append-nil as list_append_nil,
}
use mathlib.Core.Path.{subst}
use text.Mathlib.TextLemmas.{append_assoc, nil-append, append-nil}
use pgify.Base.{
  ◌≡◌, refl, sym, ap, ◌∙◌, Bool, true, false, not, ◌||◌, List, [], ◌∷◌, String, ℤ, lt_int, le_int,
  if◌then◌else◌,
}
use pgify.Printer.{Token, Output, advance_hidden, advance_all}

abbrev pub hidden_texts : List Token → List String
hidden_texts [] = []
hidden_texts (t ∷ ts) = if t.hidden then t.text ∷ hidden_texts ts else hidden_texts ts

-- The text is made of the two sequences, each in its order.
pub data Weave : List String → List String → String → Type 0 where
  done : Weave [] [] ""
  hidden :
      {hs ls : List String} {s : String} (h : String) → Weave hs ls s → Weave (h ∷ hs) ls (h ++ s)
  leaf :
      {hs ls : List String} {s : String} (l : String) → Weave hs ls s → Weave hs (l ∷ ls) (l ++ s)

pub Weave-append :
    {hs ls hs' ls' : List String} {s s' : String}
    → Weave hs ls s
    → Weave hs' ls' s'
    → Weave (append hs hs') (append ls ls') (s ++ s')
Weave-append {hs' = hs'} {ls' = ls'} {s' = s'} done v =
    subst (Weave hs' ls') (sym (nil-append s')) v
Weave-append (hidden {s = s} h w) v =
    subst (Weave _ _) (sym (append_assoc h s _)) (hidden h (Weave-append w v))
Weave-append (leaf {s = s} l w) v =
    subst (Weave _ _) (sym (append_assoc l s _)) (leaf l (Weave-append w v))

-- From one output to a later one: some hidden tokens and the leaves `ls` were printed.
pub record Prints (out : Output) (ls : List String) (out' : Output) : Type 0 where
  pub printed : List String
  pub text : String
  pub text_is : out'.0 ≡ out.0 ++ text
  pub tokens_are : hidden_texts out.1 ≡ append printed (hidden_texts out'.1)
  pub weave : Weave printed ls text

pub Prints-none : (out : Output) → Prints out [] out
Prints-none out = record {
  printed = [];
  text = "";
  text_is = sym (append-nil out.0);
  tokens_are = refl;
  weave = done;
}

pub Prints-trans :
    {out out' out'' : Output} {ls ls' : List String}
    → Prints out ls out'
    → Prints out' ls' out''
    → Prints out (append ls ls') out''
Prints-trans {out} p q = record {
  printed = append p.printed q.printed;
  text = p.text ++ q.text;
  text_is = q.text_is ∙ ap (λ t. t ++ q.text) p.text_is ∙ append_assoc out.0 p.text q.text;
  tokens_are =
      p.tokens_are
      ∙ ap (append p.printed) q.tokens_are
      ∙ sym (list_append_assoc p.printed q.printed _);
  weave = Weave-append p.weave q.weave;
}

pub Prints-skipped :
    (output : String) (t : Token) (ts : List Token)
    → t.hidden ≡ false
    → Prints (output, t ∷ ts) [] (output, ts)
Prints-skipped output t ts h = record {
  printed = [];
  text = "";
  text_is = sym (append-nil output);
  tokens_are = rw h;
  weave = done;
}

pub Prints-hidden :
    (output : String) (t : Token) (ts : List Token)
    → t.hidden ≡ true
    → Prints (output, t ∷ ts) [] (output ++ t.text, ts)
Prints-hidden output t ts h = record {
  printed = t.text ∷ [];
  text = t.text ++ "";
  text_is = ap (λ s. output ++ s) (sym (append-nil t.text));
  tokens_are = rw h;
  weave = hidden t.text done;
}

pub Prints-leaf :
    (output s : String) (ts : List Token) → Prints (output, ts) (s ∷ []) (output ++ s, ts)
Prints-leaf output s ts = record {
  printed = [];
  text = s ++ "";
  text_is = ap (λ r. output ++ r) (sym (append-nil s));
  tokens_are = refl;
  weave = leaf s done;
}

-- One round of `advance`, on the tests that it makes.
pub advance_round :
    (output : String) (t : Token) (ts : List Token) (is_hidden before : Bool)
    {skipped printed : Output}
    → t.hidden ≡ is_hidden
    → Prints (output, ts) [] skipped
    → Prints (output ++ t.text, ts) [] printed
    → Prints
        (output, t ∷ ts)
        []
        (if not is_hidden then skipped else if before then printed else (output, t ∷ ts))
advance_round output t ts false before h p q = Prints-trans (Prints-skipped output t ts h) p
advance_round output t ts true true h p q = Prints-trans (Prints-hidden output t ts h) q
advance_round output t ts true false h p q = Prints-none (output, t ∷ ts)

pub advance_hidden-Prints :
    (line position : ℤ) (output : String) (ts : List Token)
    → Prints (output, ts) [] (advance_hidden line position output ts)
unfolding advance_hidden
advance_hidden-Prints line position output [] = Prints-none (output, [])
advance_hidden-Prints line position output (t ∷ ts) =
    advance_round output t ts t.hidden (lt_int t.line line || le_int t.char_position position) refl
      (advance_hidden-Prints line position output ts)
      (advance_hidden-Prints line position (output ++ t.text) ts)

pub advance_all_round :
    (output : String) (t : Token) (ts : List Token) (is_hidden : Bool)
    → t.hidden ≡ is_hidden
    → ((o : String) → Prints (o, ts) [] (advance_all o ts))
    → Prints
        (output, t ∷ ts)
        []
        (advance_all (if not is_hidden then output else output ++ t.text) ts)
advance_all_round output t ts false h p = Prints-trans (Prints-skipped output t ts h) (p output)
advance_all_round output t ts true h p =
    Prints-trans (Prints-hidden output t ts h) (p (output ++ t.text))

-- All hidden tokens that are left are printed.
pub advance_all-Prints :
    (ts : List Token) (output : String) → Prints (output, ts) [] (advance_all output ts)
unfolding advance_all
advance_all-Prints [] output = Prints-none (output, [])
advance_all-Prints (t ∷ ts) output =
    advance_all_round output t ts t.hidden refl (advance_all-Prints ts)

pub advance_all-nil : (ts : List Token) (output : String) → (advance_all output ts).1 ≡ []
unfolding advance_all
advance_all-nil [] output = refl
advance_all-nil (t ∷ ts) output =
    advance_all-nil ts (if not t.hidden then output else output ++ t.text)

-- What is printed when no token is left is a weave of all hidden tokens and of the leaves.
pub Prints-all :
    {tokens : List Token} {ls : List String} {out : Output}
    → Prints ("", tokens) ls out
    → out.1 ≡ []
    → Weave (hidden_texts tokens) ls out.0
Prints-all {tokens} {ls} {out} p e =
    let all : hidden_texts tokens ≡ p.printed =
      p.tokens_are ∙ ap (λ l. append p.printed (hidden_texts l)) e ∙ list_append_nil p.printed in
    let text : out.0 ≡ p.text = p.text_is ∙ nil-append p.text in rw (all, text) p.weave

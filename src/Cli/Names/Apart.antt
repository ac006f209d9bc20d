-- ===== src/Cli/Names/Apart.antt =====
-- src/main.rs: the files of a publication are four different files.
use onym_discovery.Prelude.{
  ℕ, ◌≡◌, ◌≢◌, refl, sym, ap, ◌∙◌, Text, text, Bool, true, not, some, [], ◌∷◌, ◌++◌, all, All,
  all-append, length, length-append, ◌==◌, arith,
}
use mathlib.Core.List.{append_cancel_right, append_assoc}
use onym_discovery.Types.Fields.{is_digit}
use onym_discovery.Types.Fields.Alphabet.{IsIdByte}
use onym_discovery.Types.Fields.Forms.{IsToken}
use onym_discovery.Cli.Host.{Host, IsName, IsFileSystem}
use onym_discovery.Cli.Names.{
  digits, decimal, max_digits, json_ending, sig_ending, unwrap_or, retention_name, retention_path,
  sig_path,
}
use onym_discovery.Cli.Names.Unique.{digits-all}

no_slash : ℕ → Bool
no_slash b = not (b == b'/')

id-no_slash : (s : Text) → All IsIdByte s → all (λ b. not (b == b'/')) s ≡ true
id-no_slash [] h = refl
id-no_slash (b ∷ s) (h, k) = ground (arith, h, id-no_slash s k)

digit-no_slash : (s : Text) → all is_digit s ≡ true → all (λ b. not (b == b'/')) s ≡ true
digit-no_slash [] h = refl
digit-no_slash (b ∷ s) h = ground (arith, digit-no_slash s)

pub IsName-append_sig : (name : Text) → IsName name → IsName (name ++ sig_ending)
unfolding text
IsName-append_sig name (long, plain) = (
  omega (arith, long, length-append name sig_ending),
  all-append (λ b. not (b == b'/')) name sig_ending ∙ rw plain refl,
)

pub IsName-retention_name :
    (catalog_id : Text) (sequence : ℕ)
    → IsToken catalog_id
    → IsName (retention_name catalog_id sequence)
unfolding retention_name decimal text
IsName-retention_name c n (_, _, token) =
    let tail = digits max_digits n ++ json_ending in
    (
      omega (arith, length-append c (b'-' ∷ tail), length-append (digits max_digits n) json_ending),
      all-append (λ b. not (b == b'/')) c (b'-' ∷ tail)
          ∙ rw (id-no_slash c token) (
              rw (all-append (λ b. not (b == b'/')) (digits max_digits n) json_ending)
                (rw (digit-no_slash (digits max_digits n) (digits-all max_digits n)) refl)),
    )

pub append_sig-ne : (s : Text) → s ≢ s ++ sig_ending
unfolding text
append_sig-ne s e = omega (arith, ap length e, length-append s sig_ending)

last_of : Text → ℕ
last_of [] = 0
last_of (b ∷ []) = b
last_of (_ ∷ c ∷ s) = last_of (c ∷ s)

last-append : (s : Text) (b : ℕ) (t : Text) → last_of (s ++ (b ∷ t)) ≡ last_of (b ∷ t)
unfolding last_of
last-append [] b t = refl
last-append (a ∷ []) b t = refl
last-append (a ∷ c ∷ s) b t = last-append (c ∷ s) b t

last-json : (s : Text) → last_of (s ++ json_ending) ≡ b'n'
unfolding last_of text
last-json s = last-append s b'.' _

last-sig : (s : Text) → last_of (s ++ sig_ending) ≡ b'g'
unfolding last_of text
last-sig s = last-append s b'.' _

-- A signature's name ends in `g`, a retention sibling's in `n`.
pub retention-ne-sig :
    (catalog_id : Text) (sequence : ℕ) (name : Text)
    → retention_name catalog_id sequence ≢ name ++ sig_ending
unfolding retention_name
retention-ne-sig c n name e = absurd (
    omega (
      arith,
      ap last_of (append_assoc c (b'-' ∷ decimal n) json_ending ∙ e),
      last-json (c ++ (b'-' ∷ decimal n)),
      last-sig name,
    ))

-- The names of the files that a build writes, `out` being named `base`.
module _ (H : Host) (L : IsFileSystem H) (out base catalog_id : Text) (sequence : ℕ) where
  pub record IsApart : Type 0 where
    pub token : IsToken catalog_id
    pub named : H.file_name out ≡ some base
    pub base_name : IsName base
    pub not_sibling : base ≢ retention_name catalog_id sequence
    pub not_sibling_sig : base ≢ retention_name catalog_id sequence ++ sig_ending

  module _ (a : IsApart) where
    named_retention :
        H.file_name (retention_path H out catalog_id sequence)
        ≡ some (retention_name catalog_id sequence)
    unfolding retention_path
    named_retention =
        L.file_name-with_file_name out (retention_name catalog_id sequence)
          (IsName-retention_name catalog_id sequence a.token)

    pub named_sig :
        (p name : Text)
        → H.file_name p ≡ some name
        → IsName name
        → H.file_name (sig_path H p) ≡ some (name ++ sig_ending)
    unfolding sig_path
    named_sig p name e n =
        ap (λ o. H.file_name (H.with_file_name p (unwrap_or [] o ++ sig_ending))) e
        ∙ L.file_name-with_file_name p (name ++ sig_ending) (IsName-append_sig name n)

    named_retention_sig :
        H.file_name (sig_path H (retention_path H out catalog_id sequence))
        ≡ some (retention_name catalog_id sequence ++ sig_ending)
    named_retention_sig =
        named_sig _ _ named_retention (IsName-retention_name catalog_id sequence a.token)

    named_out_sig : H.file_name (sig_path H out) ≡ some (base ++ sig_ending)
    named_out_sig = named_sig out base a.named a.base_name

    pub ne_of_names :
        (p q m n : Text) → H.file_name p ≡ some m → H.file_name q ≡ some n → m ≢ n → p ≢ q
    ne_of_names p q m n e f d same = d (cc (e, f, ap H.file_name same))

    pub record Different : Type 0 where
      pub retention_sig :
          retention_path H out catalog_id sequence
          ≢ sig_path H (retention_path H out catalog_id sequence)
      pub retention_out : retention_path H out catalog_id sequence ≢ out
      pub retention_out_sig : retention_path H out catalog_id sequence ≢ sig_path H out
      pub sig_out : sig_path H (retention_path H out catalog_id sequence) ≢ out
      pub sig_out_sig : sig_path H (retention_path H out catalog_id sequence) ≢ sig_path H out
      pub out_out_sig : out ≢ sig_path H out

    pub different : Different
    different = record {
      retention_sig = ne_of_names _ _ _ _ named_retention named_retention_sig (append_sig-ne _);
      retention_out = ne_of_names _ _ _ _ named_retention a.named (λ e. a.not_sibling (sym e));
      retention_out_sig =
          ne_of_names _ _ _ _ named_retention named_out_sig
            (retention-ne-sig catalog_id sequence base);
      sig_out = ne_of_names _ _ _ _ named_retention_sig a.named (λ e. a.not_sibling_sig (sym e));
      sig_out_sig =
          ne_of_names _ _ _ _ named_retention_sig named_out_sig
            (λ e. a.not_sibling (sym (append_cancel_right _ _ sig_ending e)));
      out_out_sig = ne_of_names _ _ _ _ a.named named_out_sig (append_sig-ne base);
    }

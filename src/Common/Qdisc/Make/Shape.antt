-- ===== src/Common/Qdisc/Make/Shape.antt =====
-- What `MakeQdiscs` returns.
use kube_dtn.Prelude.{
  ℕ, zero, suc, ◌≡◌, ◌≢◌, ◌↔◌, refl, ap, sym, ◌∙◌, ◌⊎◌, inl, inr, false, some, List, [], ◌∷◌,
  Result, ok, err, panic, nat_eq, arith,
}
use kube_dtn.Api.Proto.{PbLinkProperties}
use kube_dtn.Platform.{Platform, NetemAttrs, Qdisc, netem, tbf}
use kube_dtn.Common.Percent.{parse_duration, parse_float_percentage}
use kube_dtn.Common.Rate.{parse_rate}
use kube_dtn.Common.Qdisc.Burst.{get_tbf_burst}
use kube_dtn.Common.Qdisc.Make.{◌>>=◌, no_attrs, netem_attrs, tbf_of, make_qdiscs}

-- Checks that succeed: the first one does, and the others on what it gave.
>>=-eq-ok :
    {V W : Type 0} (checked : Result V) (next : V → Result W) {w : W}
    → (checked >>= next) ≡ ok w
    → (v : V) × (checked ≡ ok v) × (next v ≡ ok w)
>>=-eq-ok panic next passed = absurd (cc)
>>=-eq-ok (err x) next passed = absurd (cc)
>>=-eq-ok (ok v) next passed = (v, refl, passed)

passed_on :
    {V W Goal : Type 0} (checked : Result V) (next : V → Result W) {w : W}
    → (checked >>= next) ≡ ok w
    → ((v : V) → checked ≡ ok v → next v ≡ ok w → Goal)
    → Goal
passed_on checked next passed use_it =
    let (v, e, rest) = >>=-eq-ok checked next passed in use_it v e rest

nat_eq-suc : (n : ℕ) → nat_eq (suc n) 0 ≡ false
nat_eq-suc n = ground arith

ok_inj : {V : Type 0} {v w : V} → ok v ≡ ok w → v ≡ w
ok_inj e = cc

module _ (p : Platform) where
  tbf_of-cases :
      (rate : ℕ)
      → ((rate ≡ 0) × (tbf_of p rate ≡ []))
        ⊎ ((rate ≢ 0) × (tbf_of p rate ≡ tbf rate (get_tbf_burst rate) 1500 ∷ []))
  tbf_of-cases zero = inl (refl, refl)
  tbf_of-cases (suc n) = inr (ground arith, rw (nat_eq-suc n) refl)

module _ (p : Platform) (properties : PbLinkProperties) (given : p.proto_size properties ≢ 0) where
  not_empty : nat_eq (p.proto_size properties) 0 ≡ false
  not_empty = ground arith

  -- The values of a netem discipline are those that the texts of the properties stand for.
  pub record IsRead (attrs : NetemAttrs p.Float32) : Type 0 where
    pub latency_read : parse_duration p properties.latency ≡ ok attrs.latency
    pub delay_corr_read : parse_float_percentage p properties.latency_corr ≡ ok attrs.delay_corr
    pub jitter_read : parse_duration p properties.jitter ≡ ok attrs.jitter
    pub loss_read : parse_float_percentage p properties.loss ≡ ok attrs.loss
    pub loss_corr_read : parse_float_percentage p properties.loss_corr ≡ ok attrs.loss_corr
    pub duplicate_read : parse_float_percentage p properties.duplicate ≡ ok attrs.duplicate
    pub duplicate_corr_read :
        parse_float_percentage p properties.duplicate_corr ≡ ok attrs.duplicate_corr
    pub reorder_prob_read : parse_float_percentage p properties.reorder_prob ≡ ok attrs.reorder_prob
    pub reorder_corr_read : parse_float_percentage p properties.reorder_corr ≡ ok attrs.reorder_corr
    pub corrupt_prob_read : parse_float_percentage p properties.corrupt_prob ≡ ok attrs.corrupt_prob
    pub corrupt_corr_read : parse_float_percentage p properties.corrupt_corr ≡ ok attrs.corrupt_corr
    pub gap_given : attrs.gap ≡ properties.gap

  -- The record of values that were read.
  attrs_gathered :
      (attrs : NetemAttrs p.Float32) (v0 : ℕ) (v1 : p.Float32) (v2 : ℕ) (v3 : p.Float32)
      (v4 : p.Float32) (v5 : p.Float32) (v6 : p.Float32) (v7 : p.Float32) (v8 : p.Float32)
      (v9 : p.Float32) (v10 : p.Float32)
      → parse_duration p properties.latency ≡ ok v0
      → parse_float_percentage p properties.latency_corr ≡ ok v1
      → parse_duration p properties.jitter ≡ ok v2
      → parse_float_percentage p properties.loss ≡ ok v3
      → parse_float_percentage p properties.loss_corr ≡ ok v4
      → parse_float_percentage p properties.duplicate ≡ ok v5
      → parse_float_percentage p properties.duplicate_corr ≡ ok v6
      → parse_float_percentage p properties.reorder_prob ≡ ok v7
      → parse_float_percentage p properties.reorder_corr ≡ ok v8
      → parse_float_percentage p properties.corrupt_prob ≡ ok v9
      → parse_float_percentage p properties.corrupt_corr ≡ ok v10
      → record {
        latency = v0;
        delay_corr = v1;
        jitter = v2;
        loss = v3;
        loss_corr = v4;
        duplicate = v5;
        duplicate_corr = v6;
        reorder_prob = v7;
        reorder_corr = v8;
        corrupt_prob = v9;
        corrupt_corr = v10;
        gap = properties.gap;
      }
        ≡ attrs
      → IsRead attrs
  attrs_gathered attrs v0 v1 v2 v3 v4 v5 v6 v7 v8 v9 v10 e0 e1 e2 e3 e4 e5 e6 e7 e8 e9 e10 same =
      record {
        latency_read = e0 ∙ ap (λ a. ok a.latency) same;
        delay_corr_read = e1 ∙ ap (λ a. ok a.delay_corr) same;
        jitter_read = e2 ∙ ap (λ a. ok a.jitter) same;
        loss_read = e3 ∙ ap (λ a. ok a.loss) same;
        loss_corr_read = e4 ∙ ap (λ a. ok a.loss_corr) same;
        duplicate_read = e5 ∙ ap (λ a. ok a.duplicate) same;
        duplicate_corr_read = e6 ∙ ap (λ a. ok a.duplicate_corr) same;
        reorder_prob_read = e7 ∙ ap (λ a. ok a.reorder_prob) same;
        reorder_corr_read = e8 ∙ ap (λ a. ok a.reorder_corr) same;
        corrupt_prob_read = e9 ∙ ap (λ a. ok a.corrupt_prob) same;
        corrupt_corr_read = e10 ∙ ap (λ a. ok a.corrupt_corr) same;
        gap_given = sym (ap (λ a. a.gap) same);
      }

  netem_attrs-IsRead :
      (attrs : NetemAttrs p.Float32) → netem_attrs p properties ≡ ok attrs → IsRead attrs
  unfolding netem_attrs
  netem_attrs-IsRead attrs read =
      passed_on (parse_duration p properties.latency) _ read (λ v0 e0 rest0.
        passed_on (parse_float_percentage p properties.latency_corr) _ rest0 (λ v1 e1 rest1.
          passed_on (parse_duration p properties.jitter) _ rest1 (λ v2 e2 rest2.
            passed_on (parse_float_percentage p properties.loss) _ rest2 (λ v3 e3 rest3.
              passed_on (parse_float_percentage p properties.loss_corr) _ rest3 (λ v4 e4 rest4.
                passed_on (parse_float_percentage p properties.duplicate) _ rest4 (λ v5 e5 rest5.
                  passed_on (parse_float_percentage p properties.duplicate_corr) _ rest5
                    (λ v6 e6 rest6.
                      passed_on (parse_float_percentage p properties.reorder_prob) _ rest6
                        (λ v7 e7 rest7.
                          passed_on (parse_float_percentage p properties.reorder_corr) _ rest7
                            (λ v8 e8 rest8.
                              passed_on (parse_float_percentage p properties.corrupt_prob) _ rest8
                                (λ v9 e9 rest9.
                                  passed_on (parse_float_percentage p properties.corrupt_corr) _
                                    rest9
                                    (λ v10 e10 rest10.
                                      attrs_gathered attrs v0 v1 v2 v3 v4 v5 v6 v7 v8 v9 v10 e0 e1
                                        e2 e3 e4 e5 e6 e7 e8 e9 e10 (ok_inj rest10))))))))))))

  IsRead-netem_attrs :
      (attrs : NetemAttrs p.Float32) → IsRead attrs → netem_attrs p properties ≡ ok attrs
  unfolding netem_attrs
  IsRead-netem_attrs attrs h =
      rw
        (
          h.latency_read,
          h.delay_corr_read,
          h.jitter_read,
          h.loss_read,
          h.loss_corr_read,
          h.duplicate_read,
          h.duplicate_corr_read,
          h.reorder_prob_read,
          h.reorder_corr_read,
          h.corrupt_prob_read,
          h.corrupt_corr_read,
          ← h.gap_given,
        )
        refl

  -- The disciplines for such values and a rate.
  abbrev pub IsMade : NetemAttrs p.Float32 → ℕ → List (Qdisc p.Float32) → Type 0
  IsMade attrs rate qs =
      ((rate ≡ 0) × (qs ≡ netem no_attrs attrs ∷ []))
      ⊎ ((rate ≢ 0) × (qs ≡ netem no_attrs attrs ∷ tbf rate (get_tbf_burst rate) 1500 ∷ []))

  IsMade-tbf_of :
      (attrs : NetemAttrs p.Float32) (rate : ℕ) (qs : List (Qdisc p.Float32))
      → IsMade attrs rate qs
      → netem no_attrs attrs ∷ tbf_of p rate ≡ qs
  IsMade-tbf_of attrs rate qs (inl (e, made)) = rw e (sym made)
  IsMade-tbf_of attrs rate qs (inr (ne, made)) = elim (tbf_of-cases p rate) [
    | inl (e, _) ↦ absurd (ne e)
    | inr (_, one) ↦ rw one (sym made)
  ]

  -- Properties of a size other than zero are accepted exactly if each of their texts and the rate
  -- can be read. The disciplines are then a netem of those values, and behind it a token bucket with
  -- the burst of the rate, unless the rate is zero.
  pub make_qdiscs-IsMade_iff :
      (qs : List (Qdisc p.Float32))
      → (make_qdiscs p (some properties) ≡ ok qs) ↔ (
          (attrs : NetemAttrs p.Float32) × (rate : ℕ) × IsRead attrs
          × (parse_rate properties.rate ≡ ok rate)
          × IsMade attrs rate qs)
  unfolding make_qdiscs
  make_qdiscs-IsMade_iff qs = (
    λ made.
        let run = rw not_empty at made in
        let (attrs, read, rest) = >>=-eq-ok (netem_attrs p properties) _ run in
        let (rate, rated, ended) = >>=-eq-ok (parse_rate properties.rate) _ rest in
        (
          attrs,
          rate,
          netem_attrs-IsRead attrs read,
          rated,
          elim (tbf_of-cases p rate) [
            | inl (e, is_nil) ↦ inl (e, cc)
            | inr (ne, is_one) ↦ inr (ne, cc)
          ],
        ),
    λ (attrs, rate, read, rated, made).
        let given_attrs = IsRead-netem_attrs attrs read in
        let same = IsMade-tbf_of attrs rate qs made in
        rw (not_empty, given_attrs, rated) (ap (λ x. ok x) same),
  )

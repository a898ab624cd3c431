-- ===== src/Roi.antt =====
-- saap/verticals/audit: the arithmetic of roi_calculator.py over any floating-point numbers, and the texts that
-- report_writer.py lays out. The two number formats, the date and the layout of a PDF are not modelled.
use ai_voice.Prelude.{String, Option, none, some, List, [], ◌∷◌, map, if◌then◌else◌}
use ai_voice.Prelude.Floats.{Floats}
use ai_voice.Prelude.Text.{append}

pub record ManualProcessOpportunity (F : Type 0) : Type 0 where
  pub name : String
  pub hours_per_month : F
  pub hourly_cost : F
  pub automation_monthly_cost : F
  pub one_time_setup_cost : F

pub record OpportunityRoi (F : Type 0) : Type 0 where
  pub name : String
  pub current_monthly_cost : F
  pub automation_monthly_cost : F
  pub monthly_savings : F
  pub annual_savings : F
  pub payback_months : Option F

module _ {F : Type 0} (floats : Floats F) where
  unfoldable pub calculate : ManualProcessOpportunity F → OpportunityRoi F
  calculate opportunity =
      let current_monthly_cost = floats.mul opportunity.hours_per_month opportunity.hourly_cost in
      let monthly_savings = floats.sub current_monthly_cost opportunity.automation_monthly_cost in
      record {
        name = opportunity.name;
        current_monthly_cost = current_monthly_cost;
        automation_monthly_cost = opportunity.automation_monthly_cost;
        monthly_savings = monthly_savings;
        annual_savings = floats.mul monthly_savings (floats.of_nat 12);
        payback_months =
            if floats.gtr monthly_savings (floats.of_nat 0)
            then some (floats.div opportunity.one_time_setup_cost monthly_savings)
            else none;
      }

  unfoldable pub build_matrix : List (ManualProcessOpportunity F) → List (OpportunityRoi F)
  build_matrix opportunities = map calculate opportunities

  -- sum(...), which starts at 0 and adds from the left
  unfoldable pub sum_from : F → List F → F
  sum_from total [] = total
  sum_from total (x ∷ xs) = sum_from (floats.add total x) xs

  unfoldable pub total_monthly_savings : List (OpportunityRoi F) → F
  total_monthly_savings opportunities =
      sum_from (floats.of_nat 0) (map (λ (o : OpportunityRoi F). o.monthly_savings) opportunities)

  unfoldable pub total_annual_savings : List (OpportunityRoi F) → F
  total_annual_savings opportunities =
      sum_from (floats.of_nat 0) (map (λ (o : OpportunityRoi F). o.annual_savings) opportunities)

  module _ (whole_amount one_decimal : F → String) where
    abbrev pub header : List String
    header =
        "Opportunity" ∷ "Current $/mo" ∷ "Automated $/mo" ∷ "Savings $/mo" ∷ "Payback (mo)" ∷ []

    unfoldable pub table_row : OpportunityRoi F → List String
    table_row o =
        o.name
        ∷ whole_amount o.current_monthly_cost
        ∷ whole_amount o.automation_monthly_cost
        ∷ whole_amount o.monthly_savings
        ∷ elim o.payback_months [ none ↦ "n/a" | some months ↦ one_decimal months ]
        ∷ []

    unfoldable pub table_rows : List (OpportunityRoi F) → List (List String)
    table_rows opportunities = header ∷ map table_row opportunities

    unfoldable pub total_text : List (OpportunityRoi F) → String
    total_text opportunities = append "Total projected savings: $" (
        append (whole_amount (total_monthly_savings opportunities))
          (append "/mo ($" (append (whole_amount (total_annual_savings opportunities)) "/yr)")))

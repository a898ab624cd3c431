-- ===== src/Tests/Savings.antt =====
-- The worked example of saap/verticals/audit/roi_calculator.py, in whole dollars.
use ai_voice.Prelude.{ℕ, ◌≡◌, refl, none, some}
use ai_voice.Roi.{ManualProcessOpportunity, calculate}
use ai_voice.Tests.Fixtures.{whole}

abbrev intake_calls : ManualProcessOpportunity ℕ
intake_calls = record {
  name = "patient intake calls";
  hours_per_month = 20;
  hourly_cost = 400;
  automation_monthly_cost = 0;
  one_time_setup_cost = 16000;
}

-- 20 hours at 400 save 8000 a month, and a setup of 16000 is paid back in two.
intake_savings : calculate whole intake_calls ≡ record {
  name = "patient intake calls";
  current_monthly_cost = 8000;
  automation_monthly_cost = 0;
  monthly_savings = 8000;
  annual_savings = 96000;
  payback_months = some 2;
}
unfolding calculate
intake_savings = refl

-- What costs as much as it saves is never paid back.
never_paid_back :
    (calculate whole (record intake_calls { automation_monthly_cost = 8000 })).payback_months ≡ none
unfolding calculate
never_paid_back = refl

-- ===== src/TestFormat.antt =====
-- `TestResultFormat` of src/include/read_duck_hunt_log_function.hpp, and the tables of names of
-- src/core/format_utils.cpp.
pub mod Table
pub mod Canonical
pub mod RoundTrip

pub data TestResultFormat : Type 0 where
  unknown auto pytest_json gotest_json eslint_json pytest_text make_error : TestResultFormat
  generic_lint duckdb_test rubocop_json cargo_test_json swiftlint_json : TestResultFormat
  phpstan_json shellcheck_json stylelint_json clippy_json : TestResultFormat
  markdownlint_json yamllint_json bandit_json spotbugs_json ktlint_json : TestResultFormat
  hadolint_json lintr_json sqlfluff_json tflint_json kube_score_json : TestResultFormat
  cmake_build python_build node_build cargo_build maven_build gradle_build : TestResultFormat
  msbuild junit_text valgrind gdb_lldb rspec_text mocha_chai_text : TestResultFormat
  gtest_text nunit_xunit_text pylint_text flake8_text black_text mypy_text : TestResultFormat
  docker_build bazel_build isort_text bandit_text autopep8_text yapf_text : TestResultFormat
  coverage_text pytest_cov_text github_actions_text gitlab_ci_text : TestResultFormat
  jenkins_text drone_ci_text terraform_text ansible_text github_cli : TestResultFormat
  clang_tidy_text regexp junit_xml nunit_xml checkstyle_xml jsonl logfmt : TestResultFormat
  syslog apache_access nginx_access aws_cloudtrail gcp_cloud_logging : TestResultFormat
  azure_activity python_logging log4j logrus iptables pf_firewall : TestResultFormat
  cisco_asa vpc_flow kubernetes windows_event auditd s3_access winston : TestResultFormat
  pino bunyan serilog nlog ruby_logger rails_log strace gcc_text : TestResultFormat

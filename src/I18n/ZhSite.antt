-- ===== src/I18n/ZhSite.antt =====
-- The Chinese messages, web/src/lib/i18n/messages/zh-CN.ts, the first sections.
use uni_llm.I18n.Shape.{
  CalculatorMessages, CommonMessages, DashboardMessages, HomeFeaturesMessages, HomeMessages,
  LocaleMessages, LoginMessages, ModelsMessages, NavMessages, ThemeMessages,
}

abbrev pub zh_nav : NavMessages
zh_nav = record {
  models = "模型";
  playground = "试用台";
  docs = "文档";
  calculator = "费用计算器";
  sign_in = "登录";
  dashboard = "控制台";
  logout = "退出";
}

abbrev pub zh_theme : ThemeMessages
zh_theme = record { switch_to_light = "切换到浅色模式"; switch_to_dark = "切换到深色模式" }

abbrev pub zh_locale : LocaleMessages
zh_locale = record { label = "语言" }

abbrev pub zh_home_features : HomeFeaturesMessages
zh_home_features = record {
  openai = record { title = "OpenAI 兼容"; description = "可直接替换 OpenAI SDK，只需修改 base URL 即可接入。" };
  pricing = record { title = "价格透明"; description = "按实际 Token 计费，控制台实时查看每次请求的成本明细。" };
  multi_vendor = record {
    title = "多厂商统一";
    description = "一个 API Key 访问 Anthropic、Google、DeepSeek 等，无需分别开户。";
  };
  failover = record { title = "内置容错"; description = "自动重试与熔断保护，上游故障时你的应用仍可保持可用。" };
  dashboard = record { title = "实时控制台"; description = "实时监控用量、费用与延迟，完整请求日志可追溯。" };
  dev_first = record { title = "开发者优先"; description = "完整 API 文档、在线 Playground 与 SDK 支持，更快上线。" };
}

abbrev pub zh_home : HomeMessages
zh_home = record {
  hero_title = "一个 API 接入所有主流";
  hero_title_highlight = "大模型";
  hero_subtitle = "通过统一的 OpenAI 兼容接口调用 Claude、Gemini、DeepSeek 等模型。无厂商锁定，价格透明，即开即用。";
  get_started = "免费开始";
  view_models = "查看模型";
  terminal = "终端";
  stats_models = "模型";
  stats_vendors = "厂商";
  stats_uptime = "可用性";
  stats_latency = "延迟";
  features_title = "你所需的一切";
  features_subtitle = "完整的多模型接入平台，无需为复杂性分心。";
  models_title = "可用模型";
  models_subtitle = "一站式访问各大厂商的优质模型，接口统一、稳定。";
  loading_models = "正在加载模型...";
  no_models = "暂无可用模型。";
  view_all_models = "查看全部模型";
  input = "输入";
  output = "输出";
  per_million = "/百万";
  pricing_title = "简单透明的定价";
  pricing_subtitle = "按 Token 计费，无月费，无最低消费。";
  pricing_model = "模型";
  pricing_input = "输入 / 百万 Token";
  pricing_output = "输出 / 百万 Token";
  pricing_loading = "正在加载价格...";
  start_free_credit = "领取 $1 免费额度";
  footer = "为开发者打造。";
  features = zh_home_features;
}

abbrev pub zh_login : LoginMessages
zh_login = record {
  tagline = "一个 API 接入所有主流大模型";
  sign_in = "登录";
  create_account = "注册账号";
  name = "姓名";
  email = "邮箱";
  password = "密码";
  name_placeholder = "你的名字";
  email_placeholder = "you@example.com";
  password_placeholder = "至少 8 位";
  loading = "...";
  has_account = "已有账号？";
  no_account = "还没有账号？";
  register = "注册";
  failed = "操作失败";
}

abbrev pub zh_models : ModelsMessages
zh_models = record {
  title = "模型广场";
  subtitle = "共 {count} 个模型、{vendors} 家厂商，均可通过统一的 OpenAI 兼容 API 访问。";
  search_placeholder = "搜索模型...";
  all_vendors = "全部厂商";
  all_capabilities = "全部能力";
  vision = "视觉";
  tools = "工具调用";
  streaming = "流式";
  loading = "正在加载模型...";
  no_results = "没有符合筛选条件的模型。";
  input = "输入";
  output = "输出";
  max_tokens = "最大 Token";
  quick_start = "快速开始";
}

abbrev pub zh_calculator : CalculatorMessages
zh_calculator = record {
  title = "费用计算器";
  subtitle = "根据预期用量估算 API 成本";
  select_model = "模型";
  input_tokens_per_request = "每次请求输入 Token";
  output_tokens_per_request = "每次请求输出 Token";
  requests_per_day = "每日请求数";
  cost_per_request = "单次请求成本";
  daily_cost = "每日成本";
  monthly_cost = "每月成本（30 天）";
  yearly_cost = "每年成本（365 天）";
  compare_title = "模型对比（按成本排序）";
  col_model = "模型";
  col_vendor = "厂商";
  col_input = "输入 $/百万";
  col_output = "输出 $/百万";
  col_per_request = "单次成本";
  col_daily = "每日成本";
  col_monthly = "每月成本";
  loading = "正在加载模型...";
}

abbrev pub zh_common : CommonMessages
zh_common = record {
  loading = "加载中...";
  failed = "操作失败";
  delete = "删除";
  create = "创建";
  enable = "启用";
  disable = "禁用";
  active = "启用";
  disabled = "禁用";
  action = "操作";
  status = "状态";
  confirm_delete_key = "确定删除此 API Key？";
}

abbrev pub zh_dashboard : DashboardMessages
zh_dashboard = record {
  balance = "余额";
  tabs = record { overview = "概览"; logs = "日志"; keys = "API Key"; settings = "设置" };
  stats = record {
    total_requests = "总请求数";
    total_tokens = "总 Token";
    total_cost = "总费用";
    today_cost = "今日费用";
    avg_latency = "平均延迟";
    success_rate = "成功率";
  };
  usage_trend = "用量趋势";
  usage_by_model = "按模型统计";
  no_usage = "暂无用量";
  recent_requests = "最近请求";
  api_keys = "API Key 管理";
  key_name_placeholder = "Key 名称（如 production）";
  key_created_hint = "Key 已创建！请立即复制，之后不会再显示。";
  no_api_keys = "暂无 API Key";
  col_name = "名称";
  col_key = "Key";
  col_scope = "权限";
  col_created = "创建时间";
  change_password = "修改密码";
  current_password = "当前密码";
  new_password = "新密码（至少 8 位）";
  update_password = "更新密码";
  password_changed = "密码修改成功";
  chart_daily_requests = "每日请求数（近 30 天）";
  chart_daily_cost = "每日费用（近 30 天）";
}
